-- ===== src/Disk/Files.antt =====
-- demo/demo-fatfs/src/backend/mod.rs: how the file backends open and create images, and
-- `Backend::open_or_create`. The file system is a parameter; of an asynchronous operation it is what
-- `wait` gives.
use unico.Common.{ℕ, Bool, true, false, ◌≡◌, refl, ap, ◌∙◌, sym, subst}
use unico.Disk.Io.{Io, done, error, panicked, Op, pure, and_then, ◌>>=◌, ◌>>◌}

pub record OpenOptions : Type 0 where
  pub read : Bool
  pub write : Bool
  pub create : Bool
  pub truncate : Bool

-- `std::fs` or `tokio::fs`.
pub record Files (ImagePath File S : Type 0) : Type 0 where
  pub open_with : OpenOptions → ImagePath → Op S File
  pub create_new : ImagePath → Op S File
  pub set_len : File → ℕ → Op S (Unit {0})

-- `Result::or_else` of a closure that does not look at the error.
abbrev or_else : {S A : Type 0} → Io A × S → Op S A → Io A × S
or_else (done a, s) n = (done a, s)
or_else (error e, s) n = n s
or_else (panicked, s) n = (panicked, s)

abbrev pub existing : OpenOptions
existing = record { read = true; write = true; create = false; truncate = false }

-- The trait's default of `open_or_create`, over its `open` and `create_new`.
unfoldable pub open_or_create : {S B : Type 0} → Op S B → Op S B → Op S B
open_or_create open_image create_image s = or_else (open_image s) create_image

pub record UnicoBackend (File : Type 0) : Type 0 where
  pub file : File

module _ {ImagePath File S : Type 0} (fs : Files ImagePath File S) where
  -- `UnicoBackend`
  unfoldable pub unico_open : ImagePath → Op S (UnicoBackend File)
  unico_open path = do file ← fs.open_with existing path; pure (record { file = file })

  unfoldable pub unico_create :
      ImagePath → ℕ → (UnicoBackend File → Op S (Unit {0})) → Op S (UnicoBackend File)
  unico_create path size init = do
    file ← fs.open_with (record { read = true; write = true; create = true; truncate = true }) path
    fs.set_len file size
    init (record { file = file })
    pure (record { file = file })

  unfoldable pub unico_create_new :
      ImagePath → ℕ → (UnicoBackend File → Op S (Unit {0})) → Op S (UnicoBackend File)
  unico_create_new path size init = do
    file ← fs.create_new path
    fs.set_len file size
    init (record { file = file })
    pure (record { file = file })

  -- `SyncBackend`, which is the file itself.
  unfoldable pub sync_open : ImagePath → Op S File
  sync_open path = fs.open_with existing path

  unfoldable pub sync_create : ImagePath → ℕ → (File → Op S (Unit {0})) → Op S File
  sync_create path size init = do
    file ← fs.open_with (record { read = true; write = true; create = true; truncate = true }) path
    fs.set_len file size
    init file
    pure file

  unfoldable pub sync_create_new : ImagePath → ℕ → (File → Op S (Unit {0})) → Op S File
  sync_create_new path size init = do
    file ← fs.create_new path
    fs.set_len file size
    init file
    pure file

  -- What is documented of a path while it names a file: opening it with these options does not change
  -- what the files hold, nor remove it, and `create_new` fails and changes nothing either.
  pub record IsKeeping {C : Type 0} (contents : S → C) (Named : S → Type 0) (path : ImagePath)
      : Type 0 where
    pub opens : (s : S) → Named s → contents (fs.open_with existing path s).1 ≡ contents s
    pub stays : (s : S) → Named s → Named (fs.open_with existing path s).1
    pub refuses : (s : S) → Named s → (e : ℕ) × ((fs.create_new path s).0 ≡ error e)
    pub refused : (s : S) → Named s → contents (fs.create_new path s).1 ≡ contents s

module _ {S C : Type 0} (contents : S → C) where
  after_error :
      {A B : Type 0} (x : Io A × S) (f : A → Op S B) (e : ℕ)
      → x.0 ≡ error e
      → contents (and_then x f).1 ≡ contents x.1
  after_error (done a, s) f e q = cc
  after_error (error e', s) f e q = refl
  after_error (panicked, s) f e q = refl

  or_else_keeps :
      {A : Type 0} (Named : S → Type 0) (x : Io A × S) (n : Op S A) (c : C)
      → contents x.1 ≡ c
      → Named x.1
      → ((s : S) → Named s → contents (n s).1 ≡ contents s)
      → contents (or_else x n).1 ≡ c
  or_else_keeps Named (done a, s) n c q o k = q
  or_else_keeps Named (error e, s) n c q o k = k s o ∙ q
  or_else_keeps Named (panicked, s) n c q o k = q

  -- Wrapping a result does not touch the state.
  wrapped : {A B : Type 0} (g : A → B) (x : Io A × S) → (and_then x (λ a. pure (g a))).1 ≡ x.1
  wrapped g (done a, s) = refl
  wrapped g (error e, s) = refl
  wrapped g (panicked, s) = refl

module _ {ImagePath File S C : Type 0} (fs : Files ImagePath File S) (contents : S → C)
    (Named : S → Type 0) (path : ImagePath) (k : IsKeeping fs contents Named path) where
  sync_keeps :
      (size : ℕ) (init : File → Op S (Unit {0})) (s : S)
      → Named s
      → contents (open_or_create (sync_open fs path) (sync_create_new fs path size init) s).1
        ≡ contents s
  unfolding open_or_create sync_open sync_create_new
  sync_keeps size init s o =
      or_else_keeps contents Named (fs.open_with existing path s)
        (sync_create_new fs path size init) (contents s) (k.opens s o) (k.stays s o)
        (λ t p.
          after_error contents (fs.create_new path t) _ (k.refuses t p).0 (k.refuses t p).1
          ∙ k.refused t p)

  unico_keeps :
      (size : ℕ) (init : UnicoBackend File → Op S (Unit {0})) (s : S)
      → Named s
      → contents (open_or_create (unico_open fs path) (unico_create_new fs path size init) s).1
        ≡ contents s
  unfolding open_or_create unico_open unico_create_new
  unico_keeps size init s o =
      or_else_keeps contents Named (unico_open fs path s) (unico_create_new fs path size init)
        (contents s)
        (ap contents
            (wrapped contents (λ (f : File). record { file = f }) (fs.open_with existing path s))
          ∙ k.opens s o)
        (subst Named
          (sym
            (wrapped contents (λ (f : File). record { file = f }) (fs.open_with existing path s)))
          (k.stays s o))
        (λ t p.
          after_error contents (fs.create_new path t) _ (k.refuses t p).0 (k.refuses t p).1
          ∙ k.refused t p)

  -- While the path names a file, `open_or_create` of either backend leaves what the files hold as it is,
  -- whatever the size and the initialiser are, and also where the file cannot be opened.
  pub open_or_create_lem :
      (size : ℕ) (init : File → Op S (Unit {0})) (unico_init : UnicoBackend File → Op S (Unit {0}))
      (s : S)
      → Named s
      → (contents (open_or_create (sync_open fs path) (sync_create_new fs path size init) s).1
          ≡ contents s)
        × (contents
              (open_or_create (unico_open fs path) (unico_create_new fs path size unico_init) s).1
            ≡ contents s)
  open_or_create_lem size init unico_init s o =
      (sync_keeps size init s o, unico_keeps size unico_init s o)
