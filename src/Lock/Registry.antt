-- ===== src/Lock/Registry.antt =====
-- The registry of locks of a process: src/lock.rs (`insert_or_get_shared_lock`). A lock is a number;
-- `strong` counts the handles of each, so that a weak reference is alive while it is not zero.
use mmreg.Lock.{put}
use mmreg.Prelude.{
  ℕ, ◌+◌, ◌-◌, Bool, ◌&&◌, List, [], ◌∷◌, ◌++◌, Option, none, some, ltb, ◌==◌, if◌then◌else◌, Text,
  Result, ok, err,
}

-- `struct FileKey`.
pub record FileKey : Type 0 where
  pub dev : ℕ
  pub ino : ℕ

abbrev pub same_key : FileKey → FileKey → Bool
same_key k l = k.dev == l.dev && k.ino == l.ino

-- `LockTable`.
abbrev pub LockTable : Type 0
LockTable = List (FileKey × ℕ)

-- The table, the handles of each lock, the file that each lock has open, and how many locks were
-- created.
pub record Registry : Type 0 where
  pub table : LockTable
  pub strong : ℕ → ℕ
  pub file : ℕ → FileKey
  pub next : ℕ

-- `retain`: entries whose lock has handles.
unfoldable pub retain : (ℕ → ℕ) → LockTable → LockTable
retain strong [] = []
retain strong (entry ∷ t) =
    let rest = retain strong t in if ltb 0 (strong entry.1) then entry ∷ rest else rest

-- `iter().find(..)`.
unfoldable pub find : FileKey → LockTable → Option ℕ
find key [] = none
find key (entry ∷ t) = if same_key entry.0 key then some entry.1 else find key t

-- Handles that other threads drop; they do not take the registry's mutex for that.
unfoldable pub drop_handles : List ℕ → (ℕ → ℕ) → ℕ → ℕ
drop_handles [] strong = strong
drop_handles (id ∷ ids) strong = drop_handles ids (put id (strong id - 1) strong)

-- One more handle of a lock: `upgrade` and `clone`.
abbrev pub share : ℕ → Registry → Registry
share id s = record s { strong = put id (s.strong id + 1) s.strong }

-- A new lock, if its file can be made.
unfoldable pub create : FileKey → Option Text → Registry → Result Text ℕ × Registry
create key (some e) s = (err e, s)
create key none s = (
  ok s.next,
  record {
    table = s.table ++ (key, s.next) ∷ [];
    strong = put s.next 1 s.strong;
    file = put s.next key s.file;
    next = s.next + 1;
  },
)

-- The lock that was found, if it still has a handle.
unfoldable pub existing : FileKey → Option Text → Registry → Option ℕ → Result Text ℕ × Registry
unfolding create
existing key made s none = create key made s
existing key made s (some id) =
    if ltb 0 (s.strong id) then (ok id, share id s) else create key made s

-- The registry without dead entries, after other threads have dropped some handles.
abbrev pub swept : List ℕ → Registry → Registry
swept drops s = record s { table = retain s.strong s.table; strong = drop_handles drops s.strong }

-- `insert_or_get_shared_lock`; `made` is the error of `make_file`, and `drops` are the handles that
-- other threads drop between `retain` and `upgrade`.
unfoldable pub insert_or_get : FileKey → Option Text → List ℕ → Registry → Result Text ℕ × Registry
unfolding retain find drop_handles existing
insert_or_get key made drops s =
    existing key made (swept drops s) (find key (retain s.strong s.table))
