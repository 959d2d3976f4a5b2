-- ===== src/Disk/Cached.antt =====
-- demo/demo-fatfs/src/backend/cached.rs: `CachedBackend`, a cache of whole pages before a backend.
use unico.Common.{
  ℕ, suc, zero, ◌+◌, ◌*◌, ◌%◌, ◌^◌, Bool, true, false, Option, none, some, List, [], ◌∷◌, ltb, ◌==◌,
  if◌then◌else◌,
}
use unico.Disk.Pages.{
  page_size, PageType, full_page, partial_page, PageRange, finished, page, overflowed, next,
}
use unico.Disk.Io.{
  Io, done, error, panicked, Op, pure, panic, ◌>>=◌, ◌>>◌, get, modify, Bytes, slice, slice_from,
  copy_from_slice, SeekFrom, start, end, current, Backend,
}

-- `BTreeMap<u64, V>`: the entries in the order of their keys.
abbrev pub lookup : {V : Type 0} → ℕ → List (ℕ × V) → Option V
lookup k [] = none
lookup k ((j, v) ∷ es) = if k == j then some v else lookup k es

abbrev pub insert : {V : Type 0} → ℕ → V → List (ℕ × V) → List (ℕ × V)
insert k v [] = (k, v) ∷ []
insert k v ((j, u) ∷ es) =
    let rest = insert k v es in
    if k == j then (k, v) ∷ es else if ltb k j then (k, v) ∷ ((j, u) ∷ es) else (j, u) ∷ rest

-- `CachePage`: `page_size` bytes.
abbrev pub zeroed : Bytes
zeroed = record { len = page_size; at = λ _. 0 }

pub record CachedBackend (B : Type 0) : Type 0 where
  pub backend : B
  pub cache : List (ℕ × Bytes)
  pub dirty : List (ℕ × Bool)
  pub my_pos : ℕ
  pub my_len : ℕ

unfoldable pub new_with_len_known : {B : Type 0} → B → ℕ → CachedBackend B
new_with_len_known backend len = record {
  backend = backend;
  cache = [];
  dirty = [];
  my_pos = 0;
  my_len = len;
}

-- `for page in range`, with a count of rounds: `end - start` are enough.
unfoldable pub for_pages : {S A : Type 0} → (A → PageType → Op S A) → ℕ → PageRange → A → Op S A
for_pages f zero r a = pure a
for_pages f (suc n) r a = elim (next r) [
  | finished ↦ pure a
  | page p r' ↦ do b ← f a p; for_pages f n r' b
  | overflowed ↦ panic
]

-- `Result::unwrap`
abbrev pub unwrap : {S A : Type 0} → Op S A → Op S A
unwrap m s =
    let (r, t) = m s in
    elim r [ done a ↦ (done a, t) | error e ↦ (panicked, t) | panicked ↦ (panicked, t) ]

module _ {ImagePath B : Type 0} (b : Backend ImagePath B) where
  -- An operation of the backend below.
  abbrev pub below : {A : Type 0} → Op B A → Op (CachedBackend B) A
  below m s = let (r, t) = m s.backend in (r, record s { backend = t })

  -- `CachedBackend::new`
  unfoldable pub new : Op B (CachedBackend B)
  new = do
    my_len ← unwrap (b.seek (end 0))
    _ ← unwrap (b.seek (start 0))
    backend ← get
    pure (new_with_len_known backend my_len)

  unfoldable pub insert_page : ℕ → Bytes → Bool → Op (CachedBackend B) (Unit {0})
  insert_page number content is_dirty = modify λ s. record s {
    cache = insert number content s.cache;
    dirty = insert number is_dirty s.dirty;
  }

  -- The page as the backend below has it. A page of a range begins at or below the range's start, so
  -- the product is a `u64`.
  unfoldable pub load : ℕ → Op (CachedBackend B) Bytes
  load number = do _ ← below (b.seek (start (number * page_size))); below (b.read_exact page_size)

  -- One round of `read`: the buffer and the count of bytes read.
  unfoldable pub read_page : Bytes × ℕ → PageType → Op (CachedBackend B) (Bytes × ℕ)
  read_page (buf, read) (full_page number) = do
    s ← get
    buf' ← elim (lookup number s.cache) [
      | some cache ↦ copy_from_slice buf read page_size cache
      | none ↦ do
        cache ← load number
        buf' ← copy_from_slice buf read page_size cache
        insert_page number cache false
        pure buf'
    ]
    pure (buf', read + page_size)
  read_page (buf, read) (partial_page number offset size) = do
    s ← get
    buf' ← elim (lookup number s.cache) [
      | some cache ↦ do part ← slice cache offset size; copy_from_slice buf read size part
      | none ↦ do
        cache ← load number
        part ← slice cache offset size
        buf' ← copy_from_slice buf read size part
        insert_page number cache false
        pure buf'
    ]
    pure (buf', read + size)

  -- A sum of `u64`, whose overflow is a panic.
  abbrev pub add_u64 : {S : Type 0} → ℕ → ℕ → Op S ℕ
  add_u64 x y = if ltb (x + y) (2 ^ 64) then pure (x + y) else panic

  -- `<CachedBackend as Read>::read`: the buffer afterwards, and the result.
  unfoldable pub read : Bytes → Op (CachedBackend B) (Bytes × ℕ)
  read buf = do
    s ← get
    last ← add_u64 s.my_pos buf.len
    (buf', n) ← for_pages read_page buf.len (record { start = s.my_pos; end = last }) (buf, 0)
    s' ← get
    pos ← add_u64 s'.my_pos n
    modify λ t. record t { my_pos = pos }
    pure (buf', n)

  -- One round of `write`: the count of bytes written.
  unfoldable pub write_page : Bytes → ℕ → PageType → Op (CachedBackend B) ℕ
  write_page buf written (full_page number) = do
    s ← get
    content ← elim (lookup number s.cache) [
      | some cached ↦ do part ← slice buf written page_size; copy_from_slice cached 0 page_size part
      | none ↦ do part ← slice_from buf written; copy_from_slice zeroed 0 page_size part
    ]
    insert_page number content true
    pure (written + page_size)
  write_page buf written (partial_page number offset size) = do
    s ← get
    content ← elim (lookup number s.cache) [
      | some cached ↦ do part ← slice buf written size; copy_from_slice cached offset size part
      | none ↦ do
        origin_pos ← below b.stream_position
        cache ← load number
        _ ← below (b.seek (start origin_pos))
        part ← slice buf written size
        copy_from_slice cache offset size part
    ]
    insert_page number content true
    pure (written + size)

  -- `<CachedBackend as Write>::write`
  unfoldable pub write : Bytes → Op (CachedBackend B) ℕ
  write buf = do
    s ← get
    last ← add_u64 s.my_pos buf.len
    written ← for_pages (write_page buf) buf.len (record { start = s.my_pos; end = last }) 0
    s' ← get
    pos ← add_u64 s'.my_pos written
    modify λ t. record t { my_pos = pos }
    pure written

  -- The loop of `real_flush` over the cached pages.
  unfoldable pub flush_pages : List (ℕ × Bytes) → Op (CachedBackend B) (Unit {0})
  flush_pages [] = pure tt
  flush_pages ((offset, content) ∷ pages) = do
    s ← get
    elim (lookup offset s.dirty) [
      | some true ↦ do
        _ ← below (b.seek (start offset))
        below (b.write_all content)
        modify λ t. record t { dirty = insert offset false t.dirty }
      | _ ↦ pure tt
    ]
    flush_pages pages

  -- `CachedBackend::real_flush`
  unfoldable pub real_flush : Op (CachedBackend B) (Unit {0})
  real_flush = do
    origin_pos ← below b.stream_position
    s ← get
    flush_pages s.cache
    below b.real_flush
    _ ← below (b.seek (start origin_pos))
    pure tt

  unfoldable pub flush : Op (CachedBackend B) (Unit {0})
  flush = pure tt

  abbrev pub sought : CachedBackend B → SeekFrom → ℕ
  sought s (start p) = p
  sought s (end p) = (s.my_len + p) % 2 ^ 64
  sought s (current p) = (s.my_pos + p) % 2 ^ 64

  -- `<CachedBackend as Seek>::seek`
  unfoldable pub seek : SeekFrom → Op (CachedBackend B) ℕ
  seek pos s = (done (sought s pos), record s { my_pos = sought s pos })

  unfoldable pub stream_position : Op (CachedBackend B) ℕ
  stream_position s = (done s.my_pos, s)

  -- `<CachedBackend as Drop>::drop`
  unfoldable pub drop : Op (CachedBackend B) (Unit {0})
  drop = unwrap real_flush

  -- `open` is `open_image`; `create` and `create_new`, whose initialiser runs where that of the backend below
  -- would have.
  unfoldable pub open_image : ImagePath → Io (CachedBackend B)
  open_image path = elim (b.open_image path) [
    | done backend ↦ (new backend).0
    | error e ↦ error e
    | panicked ↦ panicked
  ]

  -- The initialiser's error goes to the caller, after the drop of the `CachedBackend`, which writes back the
  -- pages that the initialiser has made dirty. What that leaves in the backend below, which is dropped as
  -- well, is not in the result.
  abbrev pub drop_then : {A : Type 0} → CachedBackend B → Io A → Io A
  drop_then s r = elim (drop s).0 [ done _ ↦ r | error e ↦ r | panicked ↦ panicked ]

  unfoldable pub initialise :
      Io (B × Bool) → ℕ → Op (CachedBackend B) (Unit {0}) → Io (CachedBackend B)
  initialise (done (backend, init_called)) size init =
      let (r, s) = init (new_with_len_known backend size) in
      if init_called
      then elim r [ done _ ↦ done s | error e ↦ drop_then s (error e) | panicked ↦ panicked ]
      else done (new_with_len_known backend size)
  initialise (error e) size init = error e
  initialise panicked size init = panicked

  unfoldable pub create : ImagePath → ℕ → Op (CachedBackend B) (Unit {0}) → Io (CachedBackend B)
  create path size init = initialise (b.create path size) size init

  unfoldable pub create_new : ImagePath → ℕ → Op (CachedBackend B) (Unit {0}) → Io (CachedBackend B)
  create_new path size init = initialise (b.create_new path size) size init
