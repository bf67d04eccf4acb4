-- ===== src/FileService/Folders/Diff.antt =====
-- `DiffFolders` of internal/fileservice/types.go: carrying out a diff on the old folder gives the new.
use lan_a2a.Prelude.{
  err, ok, String, ◌≡◌, refl, ap, false, Option, none, some, List, [], ◌∷◌, arith, if◌then◌else◌,
  ◌==◌, nat_eq, string_eq, list_eq, contains,
}
use lan_a2a.Prelude.GoMap
use lan_a2a.Prelude.GoMap.{GoMap, get-put, get-del, get-nil, contains-keys}
use lan_a2a.FileService.Folders.{
  entry_of, Visit, unreadable_entry, directory, file, walk_from, walk_folder, deleted, diff_folders,
  modified, FileEntry, SyncDiff, added,
}

-- What a peer does with a diff: it stores the entries at their paths and removes the deleted paths.
pub store_all : List FileEntry → GoMap String FileEntry → GoMap String FileEntry
store_all [] m = m
store_all (e ∷ es) m = store_all es (GoMap.put e.rel_path e m)

pub remove_all : List String → GoMap String FileEntry → GoMap String FileEntry
remove_all [] m = m
remove_all (p ∷ ps) m = remove_all ps (GoMap.del p m)

pub carry_out : SyncDiff → GoMap String FileEntry → GoMap String FileEntry
carry_out d m = remove_all d.deletes (store_all d.modifies (store_all d.adds m))

-- The hash of a path's content, if the folder has the path.
abbrev pub hash_of : Option FileEntry → Option String
hash_of none = none
hash_of (some e) = some e.hash

-- Each entry stands under its relative path, and no path twice.
abbrev pub IsKeyed : GoMap String FileEntry → Type 0
IsKeyed [] = Unit
IsKeyed ((k, e) ∷ m) = (e.rel_path ≡ k) × (contains k (GoMap.keys m) ≡ false) × IsKeyed m

abbrev if_new : Option FileEntry → Option FileEntry → Option FileEntry → Option FileEntry
if_new none old kept = kept
if_new (some e) none kept = some e
if_new (some e) (some o) kept = kept

abbrev if_changed : Option FileEntry → Option FileEntry → Option FileEntry → Option FileEntry
if_changed none old kept = kept
if_changed (some e) none kept = kept
if_changed (some e) (some o) kept = if o.hash == e.hash then kept else some e

get-store_added :
    (p : String) (old new m : GoMap String FileEntry)
    → IsKeyed new
    → GoMap.get p (store_all (added old new) m)
      ≡ if_new (GoMap.get p new) (GoMap.get p old) (GoMap.get p m)
unfolding store_all added GoMap.get
get-store_added p old [] m k = refl
get-store_added p old ((rel, e) ∷ new) m k = ground (
  arith,
  get-store_added p old new m k.2,
  get-store_added p old new (GoMap.put rel e m) k.2,
  ap (λ (r : String). store_all (added old new) (GoMap.put r e m)) k.0,
  get-put rel p e m,
  string_eq.beq_iff rel p,
  contains-keys rel new,
  ap (λ (r : String). GoMap.get r old) {x = rel} {y = p},
)

get-store_modified :
    (p : String) (old new m : GoMap String FileEntry)
    → IsKeyed new
    → GoMap.get p (store_all (modified old new) m)
      ≡ if_changed (GoMap.get p new) (GoMap.get p old) (GoMap.get p m)
unfolding store_all modified GoMap.get
get-store_modified p old [] m k = refl
get-store_modified p old ((rel, e) ∷ new) m k = ground (
  arith,
  get-store_modified p old new m k.2,
  get-store_modified p old new (GoMap.put rel e m) k.2,
  ap (λ (r : String). store_all (modified old new) (GoMap.put r e m)) k.0,
  get-put rel p e m,
  string_eq.beq_iff rel p,
  contains-keys rel new,
  ap (λ (r : String). GoMap.get r old) {x = rel} {y = p},
)

abbrev if_kept : Option FileEntry → Option FileEntry → Option FileEntry → Option FileEntry
if_kept none new m = m
if_kept (some o) none m = none
if_kept (some o) (some e) m = m

get-remove_deleted :
    (p : String) (old new m : GoMap String FileEntry)
    → GoMap.get p (remove_all (deleted old new) m)
      ≡ if_kept (GoMap.get p old) (GoMap.get p new) (GoMap.get p m)
unfolding remove_all deleted GoMap.get
get-remove_deleted p [] new m = refl
get-remove_deleted p ((rel, e) ∷ old) new m = ground (
  arith,
  get-remove_deleted p old new m,
  get-remove_deleted p old new (GoMap.del rel m),
  get-del rel p m,
  string_eq.beq_iff rel p,
  ap (λ (r : String). GoMap.get r new) {x = rel} {y = p},
)

-- Carrying out the diff of two folders on the old one gives, at every path, the content of the new
-- one, by its hash, or nothing where the new one has nothing. The new folder's entries stand under
-- their relative paths.
carry_out-diff_folders :
    (old new : GoMap String FileEntry) (p : String)
    → IsKeyed new
    → hash_of (GoMap.get p (carry_out (diff_folders old new) old)) ≡ hash_of (GoMap.get p new)
unfolding carry_out diff_folders
carry_out-diff_folders old new p k = ground (
  arith,
  get-remove_deleted p old new (store_all (modified old new) (store_all (added old new) old)),
  get-store_modified p old new (store_all (added old new) old) k,
  get-store_added p old new old k,
  hashes_equal (GoMap.get p old) (GoMap.get p new),
)
  where
    hashes_equal :
        (o e : Option FileEntry) → hash_of (if_kept o e (if_changed e o (if_new e o o))) ≡ hash_of e
    hashes_equal none none = refl
    hashes_equal none (some e) = refl
    hashes_equal (some o) none = refl
    hashes_equal (some o) (some e) = ground (arith, string_eq.beq_iff o.hash e.hash)

keys-put_absent :
    (k j : String) (e : FileEntry) (m : GoMap String FileEntry)
    → (k == j) ≡ false
    → contains k (GoMap.keys m) ≡ false
    → contains k (GoMap.keys (GoMap.put j e m)) ≡ false
unfolding GoMap.put
keys-put_absent k j e [] n h = ground (arith, n)
keys-put_absent k j e ((i, x) ∷ m) n h = ground (arith, keys-put_absent k j e m n)

IsKeyed-put :
    (k : String) (e : FileEntry) (m : GoMap String FileEntry)
    → e.rel_path ≡ k
    → IsKeyed m
    → IsKeyed (GoMap.put k e m)
unfolding GoMap.put
IsKeyed-put k e [] r h = (r, refl, tt)
IsKeyed-put k e ((i, x) ∷ m) r h =
    ground (arith, IsKeyed-put k e m r h.2, keys-put_absent i k e m, string_eq.beq_iff i k)

walk_from-IsKeyed :
    (entries : GoMap String FileEntry) (visits : List Visit)
    → IsKeyed entries
    → IsKeyed (walk_from entries visits)
unfolding walk_from
walk_from-IsKeyed entries [] h = h
walk_from-IsKeyed entries (unreadable_entry ∷ visits) h = walk_from-IsKeyed entries visits h
walk_from-IsKeyed entries (directory ∷ visits) h = walk_from-IsKeyed entries visits h
walk_from-IsKeyed entries (file path rel (ok r) mod_time ∷ visits) h =
    walk_from-IsKeyed (GoMap.put rel (entry_of path rel (ok r) mod_time) entries) visits
      (IsKeyed-put rel _ entries refl h)
walk_from-IsKeyed entries (file path rel (err e) mod_time ∷ visits) h =
    walk_from-IsKeyed (GoMap.put rel (entry_of path rel (err e) mod_time) entries) visits
      (IsKeyed-put rel _ entries refl h)

-- Whatever folder was recorded before and whatever a walk finds now, carrying out the diff of the two
-- on the recorded one gives, at every path, the content that the walk found, by its hash, or nothing
-- where it found nothing.
pub diff_folders-restores :
    (old : GoMap String FileEntry) (visits : List Visit) (p : String)
    → let new = walk_folder visits in
      hash_of (GoMap.get p (carry_out (diff_folders old new) old)) ≡ hash_of (GoMap.get p new)
unfolding walk_folder
diff_folders-restores old visits p =
    carry_out-diff_folders old (walk_from [] visits) p (walk_from-IsKeyed [] visits tt)
