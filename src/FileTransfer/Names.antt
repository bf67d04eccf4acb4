-- ===== src/FileTransfer/Names.antt =====
-- File names and paths of internal/filetransfer/transfer.go: where an incoming file is stored.
use lan_a2a.Prelude.{
  ℕ, String, ◌≡◌, refl, ap, ◌∙◌, inl, inr, true, false, [], ◌∷◌, ◌++◌, arith, Bool-cases, ◌==◌,
  nat_eq, string_eq, list_eq, contains, contains-append, Bytes, codes,
}
use mathlib.Core.List.{append_assoc, append-nil}
use lan_a2a.FileTransfer.{
  prepare_incoming, download_dir, Os, Manager, FilePath, Os, Manager, slash, is_empty,
  strip_slashes, last_element, base, sanitize_filename, split_path, join, download_dir,
  prepare_incoming,
}

-- A name that stands for one entry of a directory.
pub record IsPlain (name : Bytes) : Type 0 where
  pub nonempty : is_empty name ≡ false
  pub no_slash : contains slash name ≡ false
  pub no_dot : (name == codes ".") ≡ false
  pub no_dots : (name == codes "..") ≡ false

last_element-no_slash :
    (acc s : Bytes) → contains slash acc ≡ false → contains slash (last_element acc s) ≡ false
unfolding last_element
last_element-no_slash acc [] h = h
last_element-no_slash acc (c ∷ s) h = elim (Bool-cases (c == slash)) [
  | inl e ↦ rw (e, last_element) (last_element-no_slash [] s refl)
  | inr e ↦
      rw (e, last_element)
        (last_element-no_slash (acc ++ c ∷ []) s
          (ground (arith, contains-append slash acc (c ∷ []))))
]

base-no_slash :
    (name : Bytes) → (base name == codes "/") ≡ false → contains slash (base name) ≡ false
unfolding base
base-no_slash name h = ground (arith, last_element-no_slash [] (strip_slashes name))

is_empty-append : (xs : Bytes) (c : ℕ) → is_empty (xs ++ c ∷ []) ≡ false
is_empty-append [] c = refl
is_empty-append (x ∷ xs) c = refl

-- What `filepath.Base` strips does not hide an empty last element.
last_element-nonempty :
    (acc s : Bytes)
    → is_empty (last_element acc (strip_slashes s)) ≡ true
    → (is_empty (strip_slashes s) ≡ true) × (is_empty acc ≡ true)
unfolding last_element strip_slashes
last_element-nonempty acc [] h = (refl, h)
last_element-nonempty acc (c ∷ s) h = ground (
  arith,
  last_element-nonempty [] s,
  last_element-nonempty (acc ++ c ∷ []) s,
  is_empty-append acc c,
)

base-nonempty : (name : Bytes) → is_empty (base name) ≡ false
unfolding base
base-nonempty name = ground arith

-- Whatever name a peer sends, the name that is used is not empty, has no slash in it, and is neither
-- `.` nor `..`.
pub sanitize_filename-IsPlain : (name : Bytes) → IsPlain (sanitize_filename name)
unfolding sanitize_filename
sanitize_filename-IsPlain name = ground (arith, base-no_slash name, base-nonempty name)

split_path-no_slash :
    (acc s : Bytes) → contains slash s ≡ false → split_path acc s ≡ (acc ++ s) ∷ []
unfolding split_path
split_path-no_slash acc [] h = rw append-nil
split_path-no_slash acc (c ∷ s) h =
    ground (arith, split_path-no_slash (acc ++ c ∷ []) s, append_assoc acc (c ∷ []) s)

join-plain : (p : FilePath) (name : Bytes) → IsPlain name → join p name ≡ name ∷ p
unfolding join
join-plain p name h = rw (split_path-no_slash [] name h.no_slash) (ground arith)

-- A channel's directory, where the channel ID is one plain name.
pub downloads : Os → FilePath
downloads os = codes "downloads" ∷ codes ".lan-agent-bus" ∷ os.home

download_dir-plain :
    (os : Os) (channel_id : Bytes)
    → IsPlain channel_id
    → download_dir os channel_id ≡ channel_id ∷ downloads os
unfolding download_dir downloads
download_dir-plain os channel_id h = join-plain (downloads os) channel_id h

-- The file of an incoming transfer is an entry of its channel's download directory, whatever file
-- name the sender gave; and where the channel ID is a plain name, that directory is an entry of
-- `~/.lan-agent-bus/downloads`.
pub prepare_incoming-path :
    (os : Os) (now : ℕ) (m : Manager) (channel_id : Bytes) (msg_id from : String) (filename : Bytes)
    (file_size total : ℕ)
    → let path = (prepare_incoming os now m channel_id msg_id from filename file_size total).1 in
      (path ≡ sanitize_filename filename ∷ download_dir os channel_id)
      × (IsPlain channel_id → path ≡ sanitize_filename filename ∷ channel_id ∷ downloads os)
unfolding prepare_incoming
prepare_incoming-path os now m channel_id msg_id from filename file_size total = (
  here,
  λ h.
      here
      ∙ ap (λ (p : FilePath). sanitize_filename filename ∷ p) (download_dir-plain os channel_id h),
)
  where
    here :
        join (download_dir os channel_id) (sanitize_filename filename)
        ≡ sanitize_filename filename ∷ download_dir os channel_id
    here =
        join-plain (download_dir os channel_id) (sanitize_filename filename)
          (sanitize_filename-IsPlain filename)

-- A channel ID is not sanitised: `../../` and a plain name lead out of the download directory, to
-- that name in the home directory.
pub download_dir-escapes :
    (os : Os) (name : Bytes)
    → IsPlain name
    → download_dir os (codes "../../" ++ name) ≡ name ∷ os.home
unfolding download_dir join
download_dir-escapes os name h = rw (split_path-no_slash [] name h.no_slash) (ground arith)
