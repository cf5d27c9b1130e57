-- ===== src/Client/Disk.antt =====
-- Files, as the client's modules use them: each path has contents or none, and a call on a file may
-- raise OSError, a write after any part of it.
use crypto_project.Base.{
  ℕ, List, [], ◌∷◌, ◌++◌, take, Option, none, some, ◌===◌, if◌then◌else◌, Outcome, ok, raise,
  os_error, ◌≡◌, refl, sym, ap, ◌∙◌, ===_refl,
}
use crypto_project.Actions.{Action}
use crypto_project.Text.{Text}

abbrev pub Disk : Type 0
Disk = Text → Option (List ℕ)

unfoldable pub put : Text → List ℕ → Disk → Disk
put path contents disk q = if q === path then some contents else disk q

-- `os.replace(source, target)` of a file that is there.
unfoldable pub replace : Text → Text → Disk → Disk
replace source target disk q =
    if q === target then disk source else if q === source then none else disk q

-- `open(path, "wb")`, `f.write(data)`, `f.flush()` with `os.fsync(f.fileno())`, and `os.replace`.
pub data FileOp : Type 0 where
  open_file : Text → FileOp
  write : Text → List ℕ → FileOp
  sync : Text → FileOp
  rename : Text → Text → FileOp

unfoldable pub so_far : Option (List ℕ) → List ℕ
so_far none = []
so_far (some contents) = contents

-- What a call leaves.
unfoldable pub apply : FileOp → Disk → Disk
apply (open_file path) disk = put path [] disk
apply (write path contents) disk = put path (so_far (disk path) ++ contents) disk
apply (sync path) disk = disk
apply (rename source target) disk = replace source target disk

-- ... and what it leaves when it raises, a write after the first `n` bytes.
unfoldable pub break_off : ℕ → FileOp → Disk → Disk
break_off n (write path contents) disk = put path (so_far (disk path) ++ take n contents) disk
break_off n op disk = disk

-- Whether a call raises, and how many bytes a write has then written.
abbrev pub Faults : Type 0
Faults = FileOp → Disk → Option ℕ

abbrev pub reliable : Faults
reliable = λ op disk. none

unfoldable pub after_op :
    Option ℕ → FileOp → Disk → Outcome (Unit {0}) × Disk → Outcome (Unit {0}) × Disk
after_op none op disk rest = rest
after_op (some n) op disk rest = (raise os_error, break_off n op disk)

-- Calls one after the other, up to one that raises.
unfoldable pub perform : Faults → List FileOp → Action Disk (Unit {0})
perform faults [] disk = (ok tt, disk)
perform faults (op ∷ ops) disk =
    let rest = perform faults ops (apply op disk) in after_op (faults op disk) op disk rest

unfoldable pub apply_all : List FileOp → Disk → Disk
apply_all [] disk = disk
apply_all (op ∷ ops) disk = apply_all ops (apply op disk)

-- `with open(path, "wb") as f: f.write(data)`
unfoldable pub write_ops : Text → List ℕ → List FileOp
write_ops path contents = open_file path ∷ write path contents ∷ []

unfoldable pub write_file : Faults → Text → List ℕ → Action Disk (Unit {0})
write_file faults path contents = perform faults (write_ops path contents)

after_op-eq-ok :
    (o : Option ℕ) (op : FileOp) (disk left : Disk) (u : Unit {0})
    (rest : Outcome (Unit {0}) × Disk)
    → after_op o op disk rest ≡ (ok u, left)
    → rest ≡ (ok u, left)
unfolding after_op
after_op-eq-ok none op disk left u rest h = h
after_op-eq-ok (some n) op disk left u rest h = absurd (cc (ap (λ x. x.0) h))

-- Calls that all return leave what they do one after the other.
pub perform-eq-ok :
    (faults : Faults) (ops : List FileOp) (disk left : Disk) (u : Unit {0})
    → perform faults ops disk ≡ (ok u, left)
    → left ≡ apply_all ops disk
unfolding perform apply_all
perform-eq-ok faults [] disk left u h = sym (ap (λ x. x.1) h)
perform-eq-ok faults (op ∷ ops) disk left u h =
    perform-eq-ok faults ops (apply op disk) left u
      (after_op-eq-ok (faults op disk) op disk left u _ h)

-- A file that was written is read.
pub write_file-eq-ok :
    (faults : Faults) (path : Text) (contents : List ℕ) (disk left : Disk) (u : Unit {0})
    → write_file faults path contents disk ≡ (ok u, left)
    → left path ≡ some contents
unfolding write_file write_ops apply_all apply so_far put
write_file-eq-ok faults path contents disk left u h =
    ap (λ x. x path) (perform-eq-ok faults (write_ops path contents) disk left u h)
    ∙ rw (===_refl path) refl

pub perform-reliable :
    (ops : List FileOp) (disk : Disk) → perform reliable ops disk ≡ (ok tt, apply_all ops disk)
unfolding perform apply_all after_op
perform-reliable [] disk = refl
perform-reliable (op ∷ ops) disk = perform-reliable ops (apply op disk)

-- What holds where any of the calls raises and where all return.
unfoldable pub Along : (Outcome (Unit {0}) × Disk → Type 0) → List FileOp → Disk → Type 0
Along P [] disk = P (ok tt, disk)
Along P (op ∷ ops) disk =
    ((n : ℕ) → P (raise os_error, break_off n op disk)) × Along P ops (apply op disk)

pub perform-Along :
    (P : Outcome (Unit {0}) × Disk → Type 0) (faults : Faults) (ops : List FileOp) (disk : Disk)
    → Along P ops disk
    → P (perform faults ops disk)
unfolding perform Along after_op
perform-Along P faults [] disk h = h
perform-Along P faults (op ∷ ops) disk h =
    both (faults op disk) (perform-Along P faults ops (apply op disk) h.1)
  where
    both :
        (o : Option ℕ)
        → P (perform faults ops (apply op disk))
        → P (after_op o op disk (perform faults ops (apply op disk)))
    both none rest = rest
    both (some n) rest = h.0 n
