-- ===== src/Noxfs/Names.antt =====
-- Unlink, rename, rmdir, stat and chmod of src/fs/noxfs/noxfs.c, with the small calls at its end.
pub mod Mode
use noxis.Prelude.{
  ℕ, zero, suc, ◌+◌, ◌-◌, ◌*◌, ◌/◌, ◌%◌, ◌^◌, Bool, true, false, Option, none, some,
}
use noxis.Prelude.{ltb, leb, ◌==◌, ◌!=◌, ◌&&◌, ◌||◌, not, if◌then◌else◌, bit_and, bit_or}
use noxis.Prelude.Bits.{bit_not}
use noxis.Paths.{Str}
use noxis.Noxfs.Layout.{Inode, Fs, File, direct, indirect_slots, dirent_sz, get32}
use noxis.Noxfs.Alloc.{bfree, ifree, iread, iwrite, sb_write}
use noxis.Noxfs.Dir.{is_dir, dir_lookup_name, dir_add_entry, dir_remove_entry}

-- for (i = 0; i < blks && i < NOXFS_DIRECT; i++) if (in.blocks[i]) _bfree(in.blocks[i])
pub free_direct : ℕ → ℕ → ℕ → Inode → Fs → Fs
free_direct zero i blks n s = s
free_direct (suc r) i blks n s =
    if ltb i blks
    then free_direct r (i + 1) blks n (if n.blocks i == 0 then s else bfree (n.blocks i) s)
    else s

-- The loop over the pointers, read from the buffer that is held.
pub free_pointers : ℕ → ℕ → ℕ → Fs → Fs
free_pointers zero k at s = s
free_pointers (suc r) k at s =
    let p = get32 (s.disk at) (4 * k) in
    free_pointers r (k + 1) at (if p == 0 then s else bfree p s)

-- Every block of a file whose last link is gone.
pub free_blocks_of : Inode → Fs → Fs
free_blocks_of n s =
    let blks = (n.size + 511) / 512 in
    let t = free_direct direct 0 blks n s in
    let m = blks - direct in
    if n.indirect == 0
    then t
    else bfree n.indirect
        (free_pointers (if ltb m indirect_slots then m else indirect_slots) 0 n.indirect t)

-- The first cached file with this inode, with the rounds left.
pub cached_at : ℕ → ℕ → (ℕ → File) → ℕ → Option ℕ
cached_at zero i files ino = none
cached_at (suc n) i files ino = elim ((files i).inode == ino) [
  | true ↦ some i
  | false ↦ cached_at n (i + 1) files ino
]

-- It leaves the cache, and those behind it move down by one.
pub uncache : ℕ → Fs → Fs
uncache ino s = elim (cached_at s.count 0 s.files ino) [
  | none ↦ s
  | some i ↦ record s {
    files = λ j. if leb i j && ltb (j + 1) s.count then s.files (j + 1) else s.files j;
    count = s.count - 1;
  }
]

-- The lines of noxfs_unlink behind the removal of the entry.
pub drop_link : ℕ → Inode → Fs → Fs
drop_link ino n s =
    let left = n.links - 1 in
    if left == 0
    then uncache ino (ifree ino (free_blocks_of n s))
    else elim (iwrite ino (record n { links = left }) s) [ some t ↦ t | none ↦ s ]

-- True is OS_OK.
pub noxfs_unlink : ℕ → Str → Fs → Bool × Fs
noxfs_unlink parent name s = elim s.ready [
  | false ↦ (false, s)
  | true ↦ elim (dir_lookup_name parent name s) [
    | none ↦ (false, s)
    | some ino ↦ elim (iread ino s) [
      | none ↦ (false, s)
      | some n ↦
          if ino == s.sb.root_ino
          then (false, s)
          else if is_dir n && ltb (2 * dirent_sz) n.size
          then (false, s)
          else let (removed, t) = dir_remove_entry parent name s in
            elim removed [
              | false ↦ (false, t)
              | true ↦ elim (iread ino t) [
                | none ↦ (false, t)
                | some n' ↦ (true, drop_link ino n' t)
              ]
            ]
    ]
  ]
]

-- The old file of the new name goes, if it is another one; the result of that is not looked at.
pub drop_old : ℕ → Str → ℕ → Fs → Fs
drop_old parent name ino s = elim (dir_lookup_name parent name s) [
  | none ↦ s
  | some old ↦ if old == ino then s else (noxfs_unlink parent name s).1
]

pub noxfs_rename : ℕ → Str → ℕ → Str → Fs → Bool × Fs
noxfs_rename src src_name dst dst_name s = elim s.ready [
  | false ↦ (false, s)
  | true ↦ elim (dir_lookup_name src src_name s) [
    | none ↦ (false, s)
    | some ino ↦ elim (iread ino s) [
      | none ↦ (false, s)
      | some n ↦
          let (added, t) = dir_add_entry dst dst_name ino (if is_dir n then 2 else 1) s in
          elim added [
            | false ↦ (false, t)
            | true ↦ dir_remove_entry src src_name (drop_old dst dst_name ino t)
          ]
    ]
  ]
]

pub noxfs_rmdir : ℕ → Str → Fs → Bool × Fs
noxfs_rmdir parent name s = elim s.ready [
  | false ↦ (false, s)
  | true ↦ elim (dir_lookup_name parent name s) [
    | none ↦ (false, s)
    | some ino ↦ elim (iread ino s) [
      | none ↦ (false, s)
      | some n ↦
          if not (is_dir n) || ltb (2 * dirent_sz) n.size
          then (false, s)
          else noxfs_unlink parent name s
    ]
  ]
]

-- The size and the mode; `none` is an error.
unfoldable pub noxfs_stat : ℕ → Fs → Option (ℕ × ℕ)
noxfs_stat ino s = elim s.ready [
  | false ↦ none
  | true ↦ elim (iread ino s) [ none ↦ none | some n ↦ some (n.size, n.mode) ]
]

abbrev pub perm_mask : ℕ
perm_mask = 0x1FF

-- (mode & ~mask) | (perm & mask), on 16 bits
pub with_perm : ℕ → ℕ → ℕ
with_perm perm mode = bit_or (bit_and mode (bit_not 16 perm_mask)) (bit_and perm perm_mask)

unfoldable pub noxfs_chmod : ℕ → ℕ → Fs → Option Fs
noxfs_chmod ino perm s = elim s.ready [
  | false ↦ none
  | true ↦ elim (iread ino s) [
    | none ↦ none
    | some n ↦ iwrite ino (record n { mode = with_perm perm n.mode }) s
  ]
]

pub noxfs_sync : Fs → Fs
noxfs_sync s = if s.ready then sb_write s else s

pub noxfs_count : Fs → ℕ
noxfs_count s = if s.ready then s.count else 0

-- `none` is NULL, and (uint32_t)-1 for the root.
pub noxfs_entry : ℕ → Fs → Option ℕ
noxfs_entry i s = if not s.ready || leb s.count i then none else some i

pub noxfs_root_ino : Fs → Option ℕ
noxfs_root_ino s = if s.ready then some s.sb.root_ino else none
