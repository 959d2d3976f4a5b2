-- ===== src/Disk/Below.antt =====
-- What the cached backend relies on: a map's entries, slices, and the backend below, whose documented
-- behaviour is stated for its contents, its size and its position.
use unico.Common.{
  ◌⊎◌, ℕ, ◌+◌, ◌-◌, ◌*◌, ◌≤◌, ◌<◌, ◌≡◌, ◌≢◌, refl, some, List, [], ◌∷◌, arith, ◌==◌, if◌then◌else◌,
}
use unico.Disk.Pages.{page_size, PageType, full_page, partial_page}
use unico.Disk.Io.{Io, done, slice, copy_from_slice, Bytes, paste}
use unico.Disk.Cached.{lookup, insert}
use unico.Disk.Cover.{first, number_of}

pub lookup-insert :
    {V : Type 0} (i k : ℕ) (v : V) (es : List (ℕ × V))
    → lookup i (insert k v es) ≡ (if i == k then some v else lookup i es)
lookup-insert i k v [] = refl
lookup-insert i k v ((j, u) ∷ es) = ground (arith, lookup-insert i k v es)

pub lookup-insert_self :
    {V : Type 0} (k : ℕ) (v : V) (es : List (ℕ × V)) → lookup k (insert k v es) ≡ some v
lookup-insert_self k v es = ground (arith, lookup-insert k k v es)

pub lookup-insert_other :
    {V : Type 0} (i k : ℕ) (v : V) (es : List (ℕ × V))
    → i ≢ k
    → lookup i (insert k v es) ≡ lookup i es
lookup-insert_other i k v es n = ground (arith, lookup-insert i k v es)

-- The backend below keeps its size and its bytes.
pub record Same {B : Type 0} (contents : B → ℕ → ℕ) (size : B → ℕ) (s t : B) : Type 0 where
  pub size_eq : size t ≡ size s
  pub contents_eq : (i : ℕ) → contents t i ≡ contents s i

-- What a call of `read_exact` gives.
pub record Exact {B : Type 0} (contents : B → ℕ → ℕ) (size pos : B → ℕ) (n : ℕ) (s : B)
    (result : Io Bytes × B) : Type 0 where
  pub bytes : Bytes
  pub after : B
  pub returns : result ≡ (done bytes, after)
  pub len_eq : bytes.len ≡ n
  pub at_eq : (i : ℕ) → i < n → bytes.at i ≡ contents s (pos s + i)
  pub same : Same contents size s after

-- What a call of `seek` from the start gives.
pub record Sought {B : Type 0} (contents : B → ℕ → ℕ) (size pos : B → ℕ) (p : ℕ) (s : B)
    (result : Io ℕ × B) : Type 0 where
  pub after : B
  pub returns : result ≡ (done p, after)
  pub pos_eq : pos after ≡ p
  pub same : Same contents size s after

pub copy_fits :
    {S : Type 0} (dst : Bytes) (first n : ℕ) (src : Bytes) (s : S)
    → first + n ≤ dst.len
    → src.len ≡ n
    → copy_from_slice dst first n src s ≡ (done (paste dst first src), s)
copy_fits dst first n src s h e = ground arith

pub slice_fits :
    {S : Type 0} (src : Bytes) (first n : ℕ) (s : S)
    → first + n ≤ src.len
    → slice src first n s ≡ (done (record { len = n; at = λ i. src.at (first + i) }), s)
slice_fits src first n s h = ground arith

pub number_of-first : (p : PageType) → number_of p * page_size ≤ first p
number_of-first (full_page number) = omega arith
number_of-first (partial_page number offset count) = omega arith

pub paste_before : (dst : Bytes) (n j : ℕ) (src : Bytes) → j < n → (paste dst n src).at j ≡ dst.at j
paste_before dst n j src h = ground arith

pub paste_outside :
    (dst : Bytes) (n i : ℕ) (src : Bytes)
    → (i < n) ⊎ (n + src.len ≤ i)
    → (paste dst n src).at i ≡ dst.at i
paste_outside dst n i src h = ground arith

pub paste_inside :
    (dst : Bytes) (n j : ℕ) (src : Bytes) → j < src.len → (paste dst n src).at (n + j) ≡ src.at j
paste_inside dst n j src h = let e : n + j - n ≡ j = omega arith in ground arith
