-- ===== src/Noxfs/Dir.antt =====
-- Directories: the entries of a directory's data, and the functions of src/fs/noxfs/noxfs.c that find,
-- add and remove one, make a directory, resolve a path and read the entries. A C string is the list of
-- its bytes before the NUL; NULL pointers are left out.
pub mod Entries
pub mod Removed
pub mod Resolve
use noxis.Prelude.{
  ℕ, zero, suc, ◌+◌, ◌-◌, ◌*◌, ◌/◌, ◌%◌, Bool, true, false, Option, none, some, List, [], ◌∷◌,
  length, take, get_or,
}
use noxis.Prelude.{ltb, leb, ◌==◌, ◌!=◌, ◌&&◌, not, update, if◌then◌else◌, bit_and}
use noxis.Paths.{Str, slash, skip_slashes, is_dot, is_dot_dot}
use noxis.Noxfs.Layout.{Bytes, Inode, Fs, blksz, dirent_sz, ino_dir, mode_dir, byte, get32}
use noxis.Noxfs.Alloc.{balloc, ialloc, iread, iwrite}
use noxis.Noxfs.Blocks.{round_up, load_data, store_data}

abbrev pub ent_inode : Bytes → ℕ → ℕ
ent_inode d i = get32 d (dirent_sz * i)

-- while (j < name_len && name[j] && ent.name[j] == name[j]) j++, then the test that both have ended:
-- `n` bytes are left of the entry's name, at `o`.
unfoldable pub matches : ℕ → ℕ → Bytes → Str → Bool
matches zero o d [] = true
matches zero o d (c ∷ cs) = false
matches (suc n) o d [] = false
matches (suc n) o d (c ∷ cs) = elim (d o == c) [ true ↦ matches n (o + 1) d cs | false ↦ false ]

abbrev pub is_named : Bytes → Str → ℕ → Bool
is_named d name i = ent_inode d i != 0 && matches (d (dirent_sz * i + 6)) (dirent_sz * i + 8) d name

-- The first entry with this name, with the rounds left.
pub find_entry : ℕ → ℕ → Bytes → Str → Option ℕ
find_entry zero i d name = none
find_entry (suc n) i d name = elim (is_named d name i) [
  | true ↦ some i
  | false ↦ find_entry n (i + 1) d name
]

abbrev pub is_dir : Inode → Bool
is_dir n = bit_and n.mode ino_dir != 0

-- `none` is (uint32_t)-1.
pub dir_lookup_name : ℕ → Str → Fs → Option ℕ
dir_lookup_name dir name s = elim (iread dir s) [
  | none ↦ none
  | some n ↦ elim (is_dir n) [
    | false ↦ none
    | true ↦ elim (load_data dir s) [
      | none ↦ none
      | some r ↦ elim (find_entry (r.1 / dirent_sz) 0 r.0 name) [
        | none ↦ none
        | some i ↦ some (ent_inode r.0 i)
      ]
    ]
  ]
]

-- The 32 bytes of a new entry over what the memory had.
pub entry_bytes : ℕ → ℕ → Str → Bytes → Bytes
entry_bytes ino file_type name under i =
    if ltb i 4
    then byte ino i
    else if ltb i 6
    then byte dirent_sz (i - 4)
    else if i == 6
    then length name
    else if i == 7
    then file_type
    else if ltb (i - 8) (length name)
    then get_or name (i - 8) 0
    else if i - 8 == length name
    then 0
    else under i

-- The new contents of a directory of `size` bytes with one more entry.
pub appended : ℕ → Bytes → Bytes → ℕ → ℕ → Str → Bytes
appended size old junk ino file_type name i =
    if ltb i size
    then old i
    else entry_bytes ino file_type (take 23 name) (λ k. junk (size + k)) (i - size)

-- True is OS_OK.
pub dir_add_entry : ℕ → Str → ℕ → ℕ → Fs → Bool × Fs
dir_add_entry dir name ino file_type s = elim (iread dir s) [
  | none ↦ (false, s)
  | some n ↦ elim (load_data dir s) [
    | none ↦ (false, s)
    | some r ↦ elim (s.heap (round_up (n.size + dirent_sz))) [
      | none ↦ (false, s)
      | some junk ↦
          store_data dir (appended n.size r.0 junk ino file_type name) (n.size + dirent_sz) s
    ]
  ]
]

-- The contents of a directory without entry `f`.
pub compacted : ℕ → Bytes → Bytes
compacted f old i = if ltb (i / dirent_sz) f then old i else old (i + dirent_sz)

pub dir_remove_entry : ℕ → Str → Fs → Bool × Fs
dir_remove_entry dir name s = elim (iread dir s) [
  | none ↦ (false, s)
  | some n ↦ elim (is_dir n) [
    | false ↦ (false, s)
    | true ↦ elim (load_data dir s) [
      | none ↦ (false, s)
      | some r ↦ elim (find_entry (r.1 / dirent_sz) 0 r.0 name) [
        | none ↦ (false, s)
        | some f ↦
            let new_sz = (r.1 / dirent_sz - 1) * dirent_sz in
            elim (s.heap (if ltb 0 new_sz then new_sz else 1)) [
              | none ↦ (false, s)
              | some _ ↦ store_data dir (compacted f r.0) new_sz s
            ]
      ]
    ]
  ]
]

-- The entries "." and ".." of a new directory.
pub dot_data : ℕ → ℕ → Bytes
dot_data dir parent i =
    if ltb i dirent_sz
    then entry_bytes dir 2 (b'.' ∷ []) (λ _. 0) i
    else if ltb i (2 * dirent_sz)
    then entry_bytes parent 2 (b'.' ∷ b'.' ∷ []) (λ _. 0) (i - dirent_sz)
    else 0

-- The lines of noxfs_mkdir behind its allocations.
pub fill_dir : ℕ → Str → ℕ → ℕ → Fs → Option ℕ × Fs
fill_dir parent name dir blk s =
    let t = record s {
      disk = update s.disk blk (λ i. if ltb i blksz then dot_data dir parent i else s.disk blk i);
    } in
    elim (iread dir t) [
      | none ↦ (none, t)
      | some n ↦
          elim (iwrite dir (record n { blocks = update n.blocks 0 blk; size = 2 * dirent_sz }) t) [
            | none ↦ (none, t)
            | some u ↦
                let (added, v) = dir_add_entry parent name dir 2 u in
                (if added then some dir else none, v)
          ]
    ]

-- `none` is (uint32_t)-1. An inode that was allocated before a failure stays allocated.
pub noxfs_mkdir : ℕ → Str → Fs → Option ℕ × Fs
noxfs_mkdir parent [] s = (none, s)
noxfs_mkdir parent (c ∷ cs) s = elim s.ready [
  | false ↦ (none, s)
  | true ↦ elim (dir_lookup_name parent (c ∷ cs) s) [
    | some _ ↦ (none, s)
    | none ↦
        let (ino, t) = ialloc mode_dir s in
        elim ino [
          | none ↦ (none, t)
          | some dir ↦
              let (b, u) = balloc t in
              elim b [ none ↦ (none, u) | some blk ↦ fill_dir parent (c ∷ cs) dir blk u ]
        ]
  ]
]

-- while (*p && *p != '/' && ci < 31) comp[ci++] = *p++: the bytes taken and those left.
pub take_component : ℕ → Str → Str × Str
take_component zero p = ([], p)
take_component (suc n) [] = ([], [])
take_component (suc n) (c ∷ cs) = elim (c == slash) [
  | true ↦ ([], c ∷ cs)
  | false ↦ (c ∷ (take_component n cs).0, (take_component n cs).1)
]

-- One component from an inode: "." stays, ".." goes to the root.
pub step_into : Str → ℕ → Fs → Option ℕ
step_into comp cur s =
    if is_dot comp
    then some cur
    else if is_dot_dot comp
    then some s.sb.root_ino
    else dir_lookup_name cur comp s

-- The loop of noxfs_resolve, with the rounds left.
pub resolve_from : ℕ → ℕ → Str → Fs → Option ℕ
resolve_from zero cur p s = some cur
resolve_from (suc n) cur p s = elim (skip_slashes p) [
  | [] ↦ some cur
  | c ∷ cs ↦ elim (step_into (take_component 31 (c ∷ cs)).0 cur s) [
    | none ↦ none
    | some next ↦ resolve_from n next (take_component 31 (c ∷ cs)).1 s
  ]
]

pub noxfs_resolve : ℕ → Str → Fs → Option ℕ
noxfs_resolve base [] s = elim s.ready [ true ↦ some base | false ↦ none ]
noxfs_resolve base (c ∷ cs) s = elim s.ready [
  | false ↦ none
  | true ↦ elim (c == slash) [
    | true ↦ resolve_from (length cs) s.sb.root_ino cs s
    | false ↦ resolve_from (length (c ∷ cs)) base (c ∷ cs) s
  ]
]

-- What the loop of noxfs_getdents has: the next entry, the bytes written, and the buffer.
pub record Packed : Type 0 where
  pub idx : ℕ
  pub written : ℕ
  pub buf : Bytes

abbrev pub packed : ℕ → ℕ → Bytes → Packed
packed i w b = record { idx = i; written = w; buf = b }

pub pack_from : ℕ → ℕ → ℕ → Bytes → Packed → Packed
pack_from zero cnt len d p = p
pack_from (suc n) cnt len d p = elim (ltb p.idx cnt && leb (p.written + dirent_sz) len) [
  | true ↦ pack_from n cnt len d (
      packed (p.idx + 1) (p.written + dirent_sz) (λ i.
        if leb p.written i && ltb i (p.written + dirent_sz)
        then d (dirent_sz * p.idx + (i - p.written))
        else p.buf i))
  | false ↦ p
]

-- The bytes written, the buffer and the new offset; `none` is -1.
pub noxfs_getdents : ℕ → Bytes → ℕ → ℕ → Fs → Option (ℕ × Bytes × ℕ)
noxfs_getdents dir buf len off s =
    if not s.ready then none else if ltb len dirent_sz then none else elim (iread dir s) [
      | none ↦ none
      | some n ↦ if not (is_dir n) then none else elim (load_data dir s) [
        | none ↦ none
        | some r ↦
            let cnt = r.1 / dirent_sz in
            let p = pack_from cnt cnt len r.0 (packed (off / dirent_sz) 0 buf) in
            if leb cnt (off / dirent_sz)
            then some (0, buf, off)
            else some (p.written, p.buf, p.idx * dirent_sz)
      ]
    ]
