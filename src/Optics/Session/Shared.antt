-- ===== src/Optics/Session/Shared.antt =====
-- src/optics.c: a region that is created can be opened.
use optics.Base.{
  Option, Bool, sym, subst, ℕ, ◌<◌, ◌≤◌, ◌≡◌, refl, true, false, some, Text, length, none, str_eq,
  str_eq_refl, arith, ltb, min, ◌==◌, [], ◌∷◌,
}
use optics.Bits.{align}
use optics.Htable
use optics.Region.{
  Files, keep, unlink, create_new, open_found, Region, Os, name_max, default_len, create, open_at,
  shm_name, ptr, ptr_unsafe,
}
use optics.Alloc.{init}
use optics.Optics.{set_prefix}
use optics.Optics.Session.{
  Session, magic, version, optics_header_len, zeroed, region_of, create_at, attach, fill_header,
}

-- every call succeeds, and the file has this length
abbrev pub Works : Os → ℕ → Type 0
Works os len =
    (os.unlinked ≡ true)
    × (os.opened ≡ true)
    × (os.truncated ≡ true)
    × (os.mapped ≡ true)
    × (os.file_len ≡ some len)

-- the file of a name
abbrev pub file_name : Text → Text
file_name name = b'o' ∷ b'p' ∷ b't' ∷ b'i' ∷ b'c' ∷ b's' ∷ b'.' ∷ name

module _ (name : Text) (short : length name < 248) where
  name_fits : shm_name name name_max ≡ some (file_name name)
  unfolding shm_name
  name_fits = ground arith

  prefix_fits : (min (length name) 256 == 256) ≡ false
  prefix_fits = ground arith

  -- the region that a creation makes
  abbrev created_region : ℕ → Region
  created_region base = record {
    owned = true;
    min_pos = optics_header_len;
    pos = 704;
    vma_ptr = base;
    vma_len = default_len;
    old_vmas = [];
  }

  abbrev created : ℕ → ℕ → Session
  created base now = record {
    magic_word = magic;
    version_word = version;
    optics = record (zeroed (created_region base)) { prefix = name; epoch_last_inc = now };
  }

  -- the files once a leftover of the name is unlinked
  abbrev freed : Os → Files Session → Files Session
  freed os files = (unlink os files name).0

  unlink_absent :
      (os : Os) (files : Files Session)
      → files (file_name name) ≡ none
      → unlink os files name ≡ (files, false)
  unfolding unlink
  unlink_absent os files absent = rw (name_fits, unlink, absent)

  unlink_leftover :
      (os : Os) (files : Files Session) (file : Session)
      → os.unlinked ≡ true
      → files (file_name name) ≡ some file
      → unlink os files name ≡ (keep files (file_name name) none, true)
  unfolding unlink
  unlink_leftover os files file unlinked there = rw (name_fits, unlink, there, unlinked)

  -- the name is free in these files, and the others are as they were
  abbrev Freed : Files Session → Files Session → Type 0
  Freed files files' =
      (files' (file_name name) ≡ none)
      × ((q : Text) → str_eq q (file_name name) ≡ false → files' q ≡ files q)

  freed-Freed :
      (os : Os) (files : Files Session) → os.unlinked ≡ true → Freed files (freed os files)
  freed-Freed os files unlinked = go (files (file_name name)) refl
    where
      go : (o : Option Session) → files (file_name name) ≡ o → Freed files (freed os files)
      go none e =
          subst (λ (r : Files Session × Bool). Freed files r.0) (sym (unlink_absent os files e))
            (e, λ q ne. refl)
      go (some s) e =
          subst (λ (r : Files Session × Bool). Freed files r.0)
            (sym (unlink_leftover os files s unlinked e))
            (rw (str_eq_refl (file_name name)), λ q ne. rw ne)

  region_created :
      (os : Os) (len : ℕ) (files : Files Session)
      → Works os len
      → create os files name optics_header_len
        ≡ (freed os files, some (created_region os.address, file_name name))
  unfolding create create_new align
  region_created os len files (unlinked, opened, truncated, mapped, long) =
      let free = (freed-Freed os files unlinked).0 in
      rw (name_fits, create, free, opened, create_new, truncated, mapped)

  create_at-created :
      (os : Os) (len now : ℕ) (files : Files Session)
      → Works os len
      → create_at os files name now ≡ (
        keep (freed os files) (file_name name) (some (created os.address now)),
        some (created os.address now),
      )
  unfolding create_at ptr_unsafe fill_header set_prefix
  create_at-created os len now files works =
      let made = region_created os len files works in
      rw (made, create_at, fill_header, set_prefix, prefix_fits, made)

  -- the mapping of another process, and its session
  abbrev attached_region : ℕ → ℕ → Region
  attached_region base len = record {
    owned = false;
    min_pos = 0;
    pos = len;
    vma_ptr = base;
    vma_len = len;
    old_vmas = [];
  }

  abbrev attached : Region → Session → Session
  attached r file = record file {
    optics = record file.optics {
      space = record file.optics.space { region = r };
      keys = Htable.reset;
    };
  }

  region_attached :
      (os : Os) (len : ℕ) (files : Files Session) (file : Session)
      → Works os len
      → files (file_name name) ≡ some file
      → open_at os files name ≡ some (attached_region os.address len, file)
  unfolding open_at open_found
  region_attached os len files file (unlinked, opened, truncated, mapped, long) there =
      rw (name_fits, open_at, there, opened, open_found, long, mapped)

  attach-attached :
      (os : Os) (len : ℕ) (files : Files Session) (file : Session)
      → Works os len
      → files (file_name name) ≡ some file
      → optics_header_len ≤ len
      → file.magic_word ≡ magic
      → file.version_word ≡ version
      → attach os files name ≡ some (attached (attached_region os.address len) file)
  unfolding attach ptr ptr_unsafe
  attach-attached os len files file works there enough is_magic is_version =
      let inside : ltb len 656 ≡ false = ground arith in
      let positive : ltb len 0 ≡ false = ground arith in
      rw (
        region_attached os len files file works there,
        attach,
        ptr,
        ptr_unsafe,
        inside,
        positive,
        is_magic,
        is_version,
      )

-- Where the calls of the operating system succeed, a region with a name of fewer than 248 bytes is
-- created, whatever file had its name, and another session that opens the name, where the file has
-- at least the length of the header, finds that file, with the name as its prefix and the same time
-- of the last turn; no other file changes, the creator owns the region and the other does not.
pub attach-create_at :
    (os os' : Os) (len len' : ℕ) (files : Files Session) (name : Text) (now : ℕ)
    → length name < 248
    → Works os len
    → Works os' len'
    → optics_header_len ≤ len'
    → (files' : Files Session) × (s t : Session) × (create_at os files name now ≡ (files', some s))
      × (attach os' files' name ≡ some t)
      × ((q : Text) → str_eq q (file_name name) ≡ false → files' q ≡ files q)
      × (s.optics.prefix ≡ name)
      × (t.optics.prefix ≡ name)
      × (t.optics.epoch_last_inc ≡ now)
      × ((region_of s).owned ≡ true)
      × ((region_of t).owned ≡ false)
unfolding init
attach-create_at os os' len len' files name now short works works' enough =
    let s = created name short os.address now in
    let files' = keep (freed name short os files) (file_name name) (some s) in
    let there : files' (file_name name) ≡ some s = rw (str_eq_refl (file_name name)) in
    let other : (q : Text) → str_eq q (file_name name) ≡ false → files' q ≡ files q =
      λ q e. rw e ((freed-Freed name short os files works.0).1 q e) in
    (
      files',
      s,
      attached name short (attached_region name short os'.address len') s,
      create_at-created name short os len now files works,
      attach-attached name short os' len' files' s works' there enough refl refl,
      other,
      refl,
      refl,
      refl,
      refl,
      refl,
    )
