-- ===== src/Transaction/Record/Names.antt =====
-- internal/transaction/runner.go: the names under which `sanitizeBackupName` files backups.
use m.Base.{
  ℕ, ◌≡◌, refl, ap, Bool, true, false, ◌||◌, ◌&&◌, [], ◌∷◌, ◌++◌, Str, bytes, str_eq, ◌==◌,
  if◌then◌else◌, arith,
}
use m.Transaction.Record.{replace_marks, sanitize_backup_name, backup_name}

-- A byte stands in a string.
pub has_byte : ℕ → Str → Bool
has_byte b [] = false
has_byte b (c ∷ s) = c == b || has_byte b s

-- A string begins with a dot, or has two in a row.
begins_dot : Str → Bool
begins_dot [] = false
begins_dot (c ∷ s) = c == b'.'

pub has_dots : Str → Bool
has_dots [] = false
has_dots (c ∷ s) = (c == b'.' && begins_dot s) || has_dots s

replace_marks-has_byte : (s : Str) → has_byte b'/' (replace_marks s) ≡ false
unfolding has_byte replace_marks
replace_marks-has_byte [] = refl
replace_marks-has_byte (c ∷ []) = ground arith
replace_marks-has_byte (c ∷ d ∷ s) =
    ground (arith, replace_marks-has_byte (d ∷ s), replace_marks-has_byte s)

-- Only a first dot can become one.
begins_dot-replace_marks :
    (d : ℕ) (s : Str) → begins_dot (replace_marks (d ∷ s)) ≡ true → (d == b'.') ≡ true
unfolding begins_dot replace_marks
begins_dot-replace_marks d [] h = ground arith
begins_dot-replace_marks d (e ∷ s) h = ground arith

replace_marks-has_dots : (s : Str) → has_dots (replace_marks s) ≡ false
unfolding has_dots begins_dot replace_marks
replace_marks-has_dots [] = refl
replace_marks-has_dots (c ∷ []) = ground arith
replace_marks-has_dots (c ∷ d ∷ s) =
    ground (
      arith,
      replace_marks-has_dots (d ∷ s),
      replace_marks-has_dots s,
      begins_dot-replace_marks d s,
    )

-- For every path, the name that sanitizeBackupName makes has no separator and no two dots in a
-- row, and it is not empty.
pub sanitize_backup_name_lem :
    (rel : Str)
    → (has_byte b'/' (sanitize_backup_name rel) ≡ false)
      × (has_dots (sanitize_backup_name rel) ≡ false)
      × (str_eq (sanitize_backup_name rel) [] ≡ false)
unfolding sanitize_backup_name has_byte has_dots begins_dot str_eq
sanitize_backup_name_lem rel = either (str_eq (replace_marks rel) []) refl
  where
    either :
        (b : Bool)
        → str_eq (replace_marks rel) [] ≡ b
        → (has_byte b'/' (if b then bytes "backup" else replace_marks rel) ≡ false)
          × (has_dots (if b then bytes "backup" else replace_marks rel) ≡ false)
          × (str_eq (if b then bytes "backup" else replace_marks rel) [] ≡ false)
    either true same = (refl, refl, refl)
    either false same = (replace_marks-has_byte rel, replace_marks-has_dots rel, same)

slash_as_mark : (p q : Str) → replace_marks (p ++ b'/' ∷ q) ≡ replace_marks (p ++ b'_' ∷ q)
unfolding replace_marks
slash_as_mark [] [] = refl
slash_as_mark [] (d ∷ q) = ground arith
slash_as_mark (c ∷ []) q = ground (arith, slash_as_mark [] q)
slash_as_mark (c ∷ d ∷ p) q = ground (arith, slash_as_mark (d ∷ p) q, slash_as_mark p q)

-- RecordBackup files two paths that differ in one separator against one underscore under the same
-- backup name.
pub backup_name_collides : (p q : Str) → backup_name (p ++ b'/' ∷ q) ≡ backup_name (p ++ b'_' ∷ q)
unfolding backup_name sanitize_backup_name
backup_name_collides p q =
    ap (λ s. bytes "backups/" ++ (if str_eq s [] then bytes "backup" else s)) (slash_as_mark p q)
