-- ===== src/Noxfs/Cached.antt =====
-- The files in memory of src/fs/noxfs/noxfs.c: the cache of at most 24 `vfs_file_t`, filled when the
-- file system starts and by lookups, with noxfs_write and the creation of files. A `vfs_file_t*` is its
-- place in the cache. What a call that fails leaves in the place behind the last is not modelled:
-- nothing reads it before it is written again, but for the name, whose old bytes noxfs_creat keeps.
use noxis.Prelude.{
  ℕ, zero, suc, ◌+◌, ◌-◌, ◌*◌, ◌/◌, ◌%◌, ◌^◌, Bool, true, false, Option, none, some, List, [], ◌∷◌,
  length, take, get_or, min,
}
use noxis.Prelude.{ltb, leb, ◌==◌, ◌!=◌, ◌&&◌, ◌||◌, not, update, if◌then◌else◌, bit_and}
use noxis.Paths.{Str, slash}
use noxis.Noxfs.Layout.{
  Bytes, Fs, File, blksz, dirent_sz, max_files, ino_file, mode_file, get32, read_sb,
}
use noxis.Noxfs.Alloc.{ialloc, iread}
use noxis.Noxfs.Blocks.{round_up, load_data, store_data}
use noxis.Noxfs.Dir.{ent_inode, is_dir, dir_lookup_name, dir_add_entry, noxfs_mkdir, noxfs_resolve}

-- _streq of the bytes of `d` from `i` on with a string.
pub streq_at : ℕ → Bytes → Str → Bool
streq_at i d [] = d i == 0
streq_at i d (c ∷ cs) = elim (d i == c) [ true ↦ streq_at (i + 1) d cs | false ↦ false ]

-- The first cached file with this name, with the rounds left.
pub find_cached : ℕ → ℕ → (ℕ → File) → Str → Option ℕ
find_cached zero i files name = none
find_cached (suc n) i files name = elim (streq_at 0 (files i).name name) [
  | true ↦ some i
  | false ↦ find_cached n (i + 1) files name
]

-- At most 31 bytes of a name and its NUL, over what the 32 bytes had.
pub ended_name : Str → Bytes → Bytes
ended_name name old i =
    let n = take 31 name in
    if ltb i (length n) then get_or n i 0 else if i == length n then 0 else old i

-- The loop of noxfs_creat: at most 31 bytes of the name, then name[31] = 0, and nothing in between.
pub open_name : Str → Bytes → Bytes
open_name name old i =
    let n = take 31 name in if ltb i (length n) then get_or n i 0 else if i == 31 then 0 else old i

abbrev pub capacity_of : ℕ → ℕ
capacity_of size = if round_up size == 0 then blksz else round_up size

-- The part of a path behind its last '/'.
pub base_of : Str → Str → Str
base_of base [] = base
base_of base (c ∷ cs) = base_of (if c == slash then cs else base) cs

-- A file takes the place behind the last.
pub put_file : File → Fs → Fs
put_file f s = record s { files = update s.files s.count f; count = s.count + 1 }

-- The lines of noxfs_lookup behind the search in the cache.
pub cache_inode : ℕ → Str → Fs → Option ℕ × Fs
cache_inode ino path s = elim (iread ino s) [
  | none ↦ (none, s)
  | some n ↦
      if bit_and n.mode ino_file == 0
      then (none, s)
      else if leb max_files s.count
      then (none, s)
      else elim (load_data ino s) [
        | none ↦ (none, s)
        | some r ↦
            let f : File = record {
              name = ended_name (base_of path path) (s.files s.count).name;
              content = r.0;
              fsize = r.1;
              capacity = capacity_of r.1;
              inode = ino;
            } in
            (some s.count, put_file f s)
      ]
]

pub noxfs_lookup : Str → Fs → Option ℕ × Fs
noxfs_lookup name s = elim s.ready [
  | false ↦ (none, s)
  | true ↦ elim (find_cached s.count 0 s.files name) [
    | some i ↦ (some i, s)
    | none ↦ elim (noxfs_resolve s.sb.root_ino name s) [
      | none ↦ (none, s)
      | some ino ↦ if ino == s.sb.root_ino then (none, s) else cache_inode ino name s
    ]
  ]
]

-- `none` is OS_ERR_OOM.
pub ensure_capacity : File → ℕ → Fs → Option File
ensure_capacity f needed s =
    if leb needed f.capacity then some f else elim (s.heap (round_up needed)) [
      | none ↦ none
      | some junk ↦ some (record f {
        content = λ i.
            if ltb i f.fsize then f.content i else if ltb i (round_up needed) then 0 else junk i;
        capacity = round_up needed;
      })
    ]

-- The bytes of `data` at an offset of a file, which grows if they pass its end.
pub write_bytes : ℕ → List ℕ → File → File
write_bytes offset data' f =
    let needed = (offset + length data') % 2 ^ 32 in
    record f {
      content = λ i.
          if leb offset i && ltb i (offset + length data')
          then get_or data' (i - offset) 0
          else f.content i;
      fsize = if ltb f.fsize needed then needed else f.fsize;
    }

-- `none` is -1. The bytes in memory change before the store, which can fail.
pub noxfs_write : ℕ → ℕ → List ℕ → Fs → Option ℕ × Fs
noxfs_write i offset [] s = (some 0, s)
noxfs_write i offset (x ∷ xs) s =
    elim (ensure_capacity (s.files i) ((offset + length (x ∷ xs)) % 2 ^ 32) s) [
      | none ↦ (none, s)
      | some f ↦
          let g = write_bytes offset (x ∷ xs) f in
          let (stored, t) =
            store_data g.inode g.content g.fsize (record s { files = update s.files i g }) in
          (if stored then some (length (x ∷ xs)) else none, t)
    ]

-- The lines of noxfs_creat and noxfs_creat_at behind the entry in the directory.
pub cache_new : ℕ → Str → Fs → Option ℕ × Fs
cache_new ino name s = elim (s.heap blksz) [
  | none ↦ (none, s)
  | some junk ↦
      let f : File = record {
        name = open_name name (s.files s.count).name;
        content = λ i. if ltb i blksz then 0 else junk i;
        fsize = 0;
        capacity = blksz;
        inode = ino;
      } in
      (some s.count, put_file f s)
]

-- The lines that both share: an inode, an entry, a place in the cache.
pub create_in : ℕ → Str → Fs → Option ℕ × Fs
create_in parent name s =
    let (ino, t) = ialloc mode_file s in
    elim ino [
      | none ↦ (none, t)
      | some i ↦
          let (added, u) = dir_add_entry parent name i 1 t in
          elim added [ false ↦ (none, u) | true ↦ cache_new i name u ]
    ]

pub noxfs_creat : Str → Fs → Option ℕ × Fs
noxfs_creat name s =
    if not s.ready || leb max_files s.count
    then (none, s)
    else let (seen, t) = noxfs_lookup name s in
      elim seen [ some _ ↦ (none, t) | none ↦ create_in t.sb.root_ino name t ]

pub noxfs_creat_at : ℕ → Str → Fs → Option ℕ × Fs
noxfs_creat_at parent name s =
    if not s.ready || leb max_files s.count then (none, s) else create_in parent name s

-- while (*p && *p != '/') p++, then one '/' skipped: the component and what is behind it.
pub next_segment : Str → Str × Str
next_segment [] = ([], [])
next_segment (c ∷ cs) = elim (c == slash) [
  | true ↦ ([], cs)
  | false ↦ (c ∷ (next_segment cs).0, (next_segment cs).1)
]

-- A directory on the way: found, or made.
pub enter_dir : ℕ → Str → Fs → Option ℕ × Fs
enter_dir cur seg s = elim (dir_lookup_name cur seg s) [
  | some child ↦ (some child, s)
  | none ↦ noxfs_mkdir cur seg s
]

-- The loop of noxfs_creat_path, with the rounds left.
pub creat_from : ℕ → ℕ → Str → Str → Fs → Option ℕ × Fs
creat_from zero cur path p s = (none, s)
creat_from (suc n) cur path [] s = (none, s)
creat_from (suc n) cur path (c ∷ cs) s =
    let (seg, rest) = next_segment (c ∷ cs) in
    if length seg == 0 || ltb 31 (length seg) then (none, s) else elim rest [
      | [] ↦
          let (seen, t) = noxfs_lookup path s in
          elim seen [ some i ↦ (some i, t) | none ↦ noxfs_creat_at cur seg t ]
      | d ∷ ds ↦
          let (child, t) = enter_dir cur seg s in
          elim child [ none ↦ (none, t) | some next ↦ creat_from n next path (d ∷ ds) t ]
    ]

pub noxfs_creat_path : Str → Fs → Option ℕ × Fs
noxfs_creat_path [] s = (none, s)
noxfs_creat_path (c ∷ cs) s =
    if not s.ready || c != slash
    then (none, s)
    else creat_from (length cs) s.sb.root_ino (c ∷ cs) cs s

-- The loop of _dir_scan over the entries, with the rounds left.
pub scan_from : ℕ → ℕ → Bytes → Fs → Fs
scan_from zero i d s = s
scan_from (suc n) i d s =
    if leb max_files s.count
    then s
    else if ent_inode d i == 0 || d (dirent_sz * i + 7) != 1
    then scan_from n (i + 1) d s
    else elim (load_data (ent_inode d i) s) [
      | none ↦ scan_from n (i + 1) d s
      | some r ↦
          let len = min 31 (d (dirent_sz * i + 6)) in
          let old = (s.files s.count).name in
          scan_from n (i + 1) d (
            put_file
              (record {
                name = λ j.
                    if ltb j len then d (dirent_sz * i + 8 + j) else if j == len then 0 else old j;
                content = r.0;
                fsize = r.1;
                capacity = capacity_of r.1;
                inode = ent_inode d i;
              })
              s)
    ]

-- True is OS_OK.
pub dir_scan : ℕ → Fs → Bool × Fs
dir_scan dir s = elim (iread dir s) [
  | none ↦ (false, s)
  | some n ↦ elim (is_dir n) [
    | false ↦ (false, s)
    | true ↦ elim (load_data dir s) [
      | none ↦ (false, s)
      | some r ↦ (true, scan_from (r.1 / dirent_sz) 0 r.0 (record s { count = 0 }))
    ]
  ]
]

abbrev pub magic_word : ℕ
magic_word = 0x4E584632

pub noxfs_init : Fs → Bool × Fs
noxfs_init s =
    let t = record s { ready = false; count = 0 } in
    let u = record t { sb = read_sb (s.disk 0) } in
    let (scanned, v) = dir_scan u.sb.root_ino u in
    if get32 (s.disk 0) 0 != magic_word
    then (false, t)
    else if scanned
    then (true, record v { ready = true })
    else (false, v)
