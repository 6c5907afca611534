-- ===== src/Migrate/Versions.antt =====
-- What the embedded migrations are once they are loaded.
use tick.Base.{
  ℕ, suc, ◌≤◌, ◌≡◌, refl, sym, ◌∙◌, ap, subst, inl, inr, Bool, true, false, Option, none, some,
  List, [], ◌∷◌, Text, arith, length, ◌=?◌, ◌==◌, All, select, Bool-cases,
}
use tick.Base.Rows.{All-map}
use tick.Base.Members.{In, In-perm, length-perm}
use tick.Cron.{trim_space}
use tick.Store.Claim.{contains}
use tick.Migrate.{
  File, Migration, match_filename, is_migration, Loading, fine, failed, read_body, read_named,
  read_file, cons_loaded, read_files, Sorter, load_from,
}
use tick.Migrate.Ascending.{uses, uses-perm, IsAscending, sorted-IsAscending}

-- What it takes for a file to be a migration.
record IsRead (f : File) (m : Migration) : Type 0 where
  header : match_filename f.name ≡ some (m.version, m.name)
  body : f.body ≡ some m.sql
  filled : (trim_space m.sql =? []) ≡ false

fine-injective : {A : Type 0} {a b : A} → fine a ≡ fine b → a ≡ b
fine-injective e = cc e

read_body-fine :
    (f : File) (version : ℕ) (name : Text) (m : Migration) (b : Option Text)
    → match_filename f.name ≡ some (version, name)
    → f.body ≡ b
    → read_body (version, name) b ≡ fine m
    → IsRead f m × (version ≡ m.version)
read_body-fine f version name m none header h e = absurd (cc)
read_body-fine f version name m (some body) header h e = elim (Bool-cases (trim_space body =? [])) [
  | inl blank ↦ absurd (cc (rw blank at e))
  | inr filled ↦
      subst (λ x. IsRead f x × (version ≡ x.version)) (fine-injective (rw filled at e))
        (record { header = header; body = h; filled = filled }, refl)
]

read_file-fine :
    (seen : List ℕ) (f : File) (m : Migration)
    → read_file seen f ≡ fine m
    → IsRead f m × (contains seen m.version ≡ false)
unfolding read_file
read_file-fine seen f m e = named (match_filename f.name) refl e
  where
    named :
        (header : Option (ℕ × Text))
        → match_filename f.name ≡ header
        → read_named seen f header ≡ fine m
        → IsRead f m × (contains seen m.version ≡ false)
    named none h k = absurd (cc)
    named (some (version, name)) h k = elim (Bool-cases (contains seen version)) [
      | inl again ↦ absurd (cc (rw again at k))
      | inr first ↦
          let (found, same) = read_body-fine f version name m f.body h refl (rw first at k) in
          (found, subst (λ v. contains seen v ≡ false) same first)
    ]

-- What an answer of the loop says of the first migration.
record IsNext (seen : List ℕ) (f : File) (fs : List File) (ms : List Migration) : Type 0 where
  first : Migration
  others : List Migration
  reads : IsRead f first
  fresh : contains seen first.version ≡ false
  goes_on : read_files (first.version ∷ seen) fs ≡ fine others
  whole : ms ≡ first ∷ others

read_files-IsNext :
    (seen : List ℕ) (f : File) (fs : List File) (ms : List Migration)
    → is_migration f ≡ true
    → read_files seen (f ∷ fs) ≡ fine ms
    → IsNext seen f fs ms
unfolding read_files
read_files-IsNext seen f fs ms h e = by_file (read_file seen f) refl (rw h at e)
  where
    by_rest :
        (m : Migration) (r : Loading (List Migration))
        → read_file seen f ≡ fine m
        → read_files (m.version ∷ seen) fs ≡ r
        → cons_loaded m r ≡ fine ms
        → IsNext seen f fs ms
    by_rest m (failed x) a b k = absurd (cc)
    by_rest m (fine others) a b k =
        let (reads, fresh) = read_file-fine seen f m a in
        record {
          first = m;
          others = others;
          reads = reads;
          fresh = fresh;
          goes_on = b;
          whole = sym (fine-injective k);
        }

    by_file :
        (r : Loading Migration)
        → read_file seen f ≡ r
        → (elim r [
          | fine m ↦ cons_loaded m (read_files (m.version ∷ seen) fs)
          | failed x ↦ failed x
        ])
          ≡ fine ms
        → IsNext seen f fs ms
    by_file (failed x) a k = absurd (cc)
    by_file (fine m) a k = by_rest m (read_files (m.version ∷ seen) fs) a refl k

-- No version occurs twice, and none that was seen before.
read_files-uses :
    (seen : List ℕ) (fs : List File) (ms : List Migration) (v : ℕ)
    → read_files seen fs ≡ fine ms
    → (uses v ms ≤ 1) × (contains seen v ≡ true → uses v ms ≡ 0)
unfolding read_files uses select contains
read_files-uses seen [] ms v e = rw (← fine-injective e) (omega arith, λ h. refl)
read_files-uses seen (f ∷ fs) ms v e = elim (Bool-cases (is_migration f)) [
  | inl named ↦
      let n = read_files-IsNext seen f fs ms named e in
      let (few, none_again) = read_files-uses (n.first.version ∷ seen) fs n.others v n.goes_on in
      rw n.whole (by_version n.first n.others (v == n.first.version) refl few none_again n.fresh)
  | inr other ↦ read_files-uses seen fs ms v (rw other at e)
]
  where
    same : (x : ℕ) (m : Migration) → (x == m.version) ≡ true → x ≡ m.version
    same x m h = ground (arith, h)

    by_version :
        (m : Migration) (ms : List Migration) (b : Bool)
        → (v == m.version) ≡ b
        → uses v ms ≤ 1
        → (contains (m.version ∷ seen) v ≡ true → uses v ms ≡ 0)
        → contains seen m.version ≡ false
        → (uses v (m ∷ ms) ≤ 1) × (contains seen v ≡ true → uses v (m ∷ ms) ≡ 0)
    by_version m ms true h few again fresh = (
      ground (arith, again, h),
      λ k. absurd (cc (k, subst (λ x. contains seen x ≡ false) (sym (same v m h)) fresh)),
    )
    by_version m ms false h few again fresh = (ground (arith, h), λ k. ground (arith, h, k, again))

-- Every file of a migration has been read.
Stored : List Migration → File → Type 0
Stored ms f = (m : Migration) × In m ms × IsRead f m

Stored-cons : (m : Migration) (ms : List Migration) (f : File) → Stored ms f → Stored (m ∷ ms) f
unfolding Stored
Stored-cons m ms f (n, i, h) = (n, inr i, h)

read_files-Stored :
    (seen : List ℕ) (fs : List File) (ms : List Migration)
    → read_files seen fs ≡ fine ms
    → All (Stored ms) (select is_migration fs) × (length ms ≡ length (select is_migration fs))
unfolding read_files select Stored
read_files-Stored seen [] ms e = rw (← fine-injective e) (tt, refl)
read_files-Stored seen (f ∷ fs) ms e = elim (Bool-cases (is_migration f)) [
  | inl named ↦
      let n = read_files-IsNext seen f fs ms named e in
      let (stored, same) = read_files-Stored (n.first.version ∷ seen) fs n.others n.goes_on in
      let files = select is_migration fs in
      let both : All (Stored (n.first ∷ n.others)) (f ∷ files)
          × (suc (length n.others) ≡ suc (length files)) =
        (
          (
            (n.first, inl refl, n.reads),
            All-map _ files (λ g. Stored-cons n.first n.others g) stored,
          ),
          ap suc same,
        ) in
      rw named (
        subst (λ xs. All (Stored xs) (f ∷ files) × (length xs ≡ suc (length files))) (sym n.whole)
          both)
  | inr other ↦ rw other (read_files-Stored seen fs ms (rw other at e))
]

-- When the migrations load, their versions strictly ascend, there is one for each file of the
-- directory that is named *.sql, and each such file's is among them, with the version and the name that the file's name spells
-- and its body, which is not blank.
pub load_from_lem :
    (sorter : Sorter) (files : List File) (ms : List Migration)
    → load_from sorter files ≡ fine ms
    → IsAscending ms
      × (length ms ≡ length (select is_migration files))
      × All
          (λ f.
            (m : Migration) × In m ms
            × (match_filename f.name ≡ some (m.version, m.name))
            × (f.body ≡ some m.sql)
            × ((trim_space m.sql =? []) ≡ false))
          (select is_migration files)
unfolding load_from
load_from_lem sorter files ms e = loaded (read_files [] files) refl e
  where
    loaded :
        (r : Loading (List Migration))
        → read_files [] files ≡ r
        → (elim r [ fine xs ↦ fine (sorter.sort xs) | failed x ↦ failed x ]) ≡ fine ms
        → IsAscending ms
          × (length ms ≡ length (select is_migration files))
          × All
              (λ f.
                (m : Migration) × In m ms
                × (match_filename f.name ≡ some (m.version, m.name))
                × (f.body ≡ some m.sql)
                × ((trim_space m.sql =? []) ≡ false))
              (select is_migration files)
    loaded (failed x) a k = absurd (cc)
    loaded (fine xs) a k =
        let perm = sorter.sort-perm xs in
        let (stored, same) = read_files-Stored [] files xs a in
        rw (← fine-injective k) (
          sorted-IsAscending (sorter.sort xs) (sorter.sort-IsSorted xs)
              (λ v. omega (arith, uses-perm v perm, (read_files-uses [] files xs v a).0)),
          length-perm perm ∙ same,
          All-map _ (select is_migration files)
              (λ f (h : Stored xs f).
                unfold Stored in (h.0, In-perm h.0 perm h.1, h.2.header, h.2.body, h.2.filled))
              stored,
        )
