-- ===== src/Client/Keystore/Crash.antt =====
-- `_atomic_write` of client/keystore.py when it is cut off, by a call that raises or by a crash. A
-- crash may leave anything in a file that was written to and not synced since.
use crypto_project.Base.{
  ℕ, zero, suc, Bool, true, false, List, [], ◌∷◌, length, length-append, take, some, ◌===◌,
  ===_refl, ===_of_ne, if◌then◌else◌, Outcome, ok, raise, os_error, ◌≡◌, ◌≢◌, ◌⊎◌, inl, inr, refl,
  ap, ◌∙◌, arith,
}
use crypto_project.Text.{Text}
use crypto_project.Client.Disk.{
  Disk, put, replace, so_far, FileOp, open_file, write, sync, rename, apply, break_off, apply_all,
  Faults, perform, Along, perform-Along,
}
use crypto_project.Client.Keystore.{temporary, atomic_ops, atomic_write}
use crypto_project.Client.Keystore.RoundTrip.{atomic_ops-reads}

-- The files that a call leaves unsynced, and those that calls leave so.
unfoldable pub unsynced_by : FileOp → (Text → Bool) → Text → Bool
unsynced_by (open_file path) before q = if q === path then true else before q
unsynced_by (write path contents) before q = if q === path then true else before q
unsynced_by (sync path) before q = if q === path then false else before q
unsynced_by (rename source target) before q =
    if q === target then before source else if q === source then false else before q

unfoldable pub unsynced : List FileOp → (Text → Bool) → Text → Bool
unsynced [] before = before
unsynced (op ∷ ops) before = unsynced ops (unsynced_by op before)

-- What a crash after the calls may leave of a disk on which all was synced.
unfoldable pub IsCrashOf : List FileOp → Disk → Disk → Type 0
IsCrashOf ops disk cut =
    (q : Text) → unsynced ops (λ r. false) q ≡ false → cut q ≡ apply_all ops disk q

longer : (path : Text) → path ≢ temporary path
longer path h = omega (arith, ap length h, length-append path (b'.' ∷ b't' ∷ b'm' ∷ b'p' ∷ []))

apart : (path : Text) → (path === temporary path) ≡ false
apart path = ===_of_ne path (temporary path) (longer path)

whole :
    (path : Text) (contents : List ℕ) (disk cut : Disk) (n : ℕ)
    → IsCrashOf (take n (atomic_ops path contents)) disk cut
    → (cut path ≡ disk path) ⊎ (cut path ≡ some contents)
unfolding IsCrashOf unsynced unsynced_by atomic_ops apply_all apply put replace so_far
whole path contents disk cut zero h = inl (h path refl)
whole path contents disk cut (suc zero) h =
    inl (h path (rw (apart path) refl) ∙ rw (apart path) refl)
whole path contents disk cut (suc (suc zero)) h =
    inl (h path (rw (apart path) refl) ∙ rw (apart path) refl)
whole path contents disk cut (suc (suc (suc zero))) h =
    inl (h path (rw (apart path) refl) ∙ rw (apart path) refl)
whole path contents disk cut (suc (suc (suc (suc zero)))) h = inr (
    h path (rw (===_refl path, ===_refl (temporary path)) refl)
    ∙ atomic_ops-reads path contents disk)
whole path contents disk cut (suc (suc (suc (suc (suc n))))) h = inr (
    h path (rw (===_refl path, ===_refl (temporary path)) refl)
    ∙ atomic_ops-reads path contents disk)

-- `_atomic_write` makes the calls of `atomic_ops` in their order, and wherever these are cut off by a
-- crash, before, between or after them, the file is as it was or has all of the new contents, whatever
-- the crash leaves in files that are not synced.
pub atomic_ops-IsCrashOf :
    (faults : Faults) (path : Text) (contents : List ℕ) (disk cut : Disk) (n : ℕ)
    → IsCrashOf (take n (atomic_ops path contents)) disk cut
    → (atomic_write faults path contents disk ≡ perform faults (atomic_ops path contents) disk)
      × ((cut path ≡ disk path) ⊎ (cut path ≡ some contents))
unfolding atomic_write
atomic_ops-IsCrashOf faults path contents disk cut n h = (refl, whole path contents disk cut n h)

-- The file has all of the new contents where the write returns, and is as it was where it raises, which
-- is with OSError; no other file changes but the temporary one.
unfoldable pub IsSettled : Text → List ℕ → Disk → Outcome (Unit {0}) × Disk → Type 0
IsSettled path contents disk (o, left) =
    ((o ≡ ok tt) × (left path ≡ some contents) ⊎ (o ≡ raise os_error) × (left path ≡ disk path))
    × ((q : Text) → (q === path) ≡ false → (q === temporary path) ≡ false → left q ≡ disk q)

settled :
    (path : Text) (contents : List ℕ) (disk : Disk)
    → Along (IsSettled path contents disk) (atomic_ops path contents) disk
unfolding Along IsSettled atomic_ops apply_all apply break_off put replace so_far
settled path contents disk =
    let same = apart path in
    (
      λ n. (inr (refl, refl), λ q h h'. refl),
      (
        λ n. (inr (refl, rw same refl), λ q h h'. rw h' refl),
        (
          λ n. (inr (refl, rw same refl), λ q h h'. rw h' refl),
          (
            λ n. (inr (refl, rw same refl), λ q h h'. rw h' refl),
            (inl (refl, atomic_ops-reads path contents disk), λ q h h'. rw (h, h') refl),
          ),
        ),
      ),
    )

-- Whichever of its calls raises, and however much a write has then written, `_atomic_write` has put all
-- of the new contents in the file where it returns; where it raises, with OSError, the file is as it
-- was; and no other file changes but the temporary one.
pub atomic_write-IsSettled :
    (faults : Faults) (path : Text) (contents : List ℕ) (disk : Disk)
    → IsSettled path contents disk (atomic_write faults path contents disk)
unfolding atomic_write IsSettled
atomic_write-IsSettled faults path contents disk =
    perform-Along (IsSettled path contents disk) faults (atomic_ops path contents) disk
      (settled path contents disk)
