-- ===== src/Examples/Ram.antt =====
-- A disk of four pages in memory, under the cached backend and the counting one.
use unico.Common.{
  ℕ, ◌+◌, ◌-◌, ◌≡◌, ◌<◌, ◌≤◌, refl, true, [], ◌∷◌, arith, leb, ltb, ◌&&◌, if◌then◌else◌, ◌⊎◌,
}
use unico.Disk.Io.{done, error, Bytes, Backend, SeekFrom, start, end, current}
use unico.Disk.Pages.{page_size}
use unico.Disk.Cached.{CachedBackend, real_flush}
use unico.Disk.View.{Documented}
use unico.Disk.Flushes.{WritesDocumented, PutAtNumber, real_flush-PutAtNumber}

record Ram : Type 0 where
  bytes : ℕ → ℕ
  place : ℕ

abbrev target : ℕ → SeekFrom → ℕ
target p (start q) = q
target p (end q) = 4194304
target p (current q) = p

abbrev stored : Bytes → Ram → Ram
stored x s = record {
  bytes = λ i. if leb s.place i && ltb i (s.place + x.len) then x.at (i - s.place) else s.bytes i;
  place = s.place + x.len;
}

abbrev from_place : ℕ → Ram → Bytes
from_place n s = record { len = n; at = λ i. s.bytes (s.place + i) }

abbrev ram : Backend (Unit {0}) Ram
ram = record {
  open_image = λ path. error 2;
  create = λ path n. error 17;
  create_new = λ path n. error 17;
  real_flush = λ s. (done tt, s);
  read = λ n s. (done (from_place n s), record s { place = s.place + n });
  read_exact = λ n s. (done (from_place n s), record s { place = s.place + n });
  write = λ x s. (done x.len, stored x s);
  write_all = λ x s. (done tt, stored x s);
  flush = λ s. (done tt, s);
  seek = λ q s. (done (target s.place q), record s { place = target s.place q });
  stream_position = λ s. (done s.place, s);
}

abbrev contents : Ram → ℕ → ℕ
contents s i = s.bytes i

abbrev size : Ram → ℕ
size s = 4194304

abbrev pos : Ram → ℕ
pos s = s.place

ram-Documented : Documented ram contents size pos
ram-Documented = record {
  seek_law = λ p s. record {
    after = record s { place = p };
    returns = refl;
    pos_eq = refl;
    same = record { size_eq = refl; contents_eq = λ i. refl };
  };
  read_law = λ n s h. record {
    bytes = from_place n s;
    after = record s { place = s.place + n };
    returns = refl;
    len_eq = refl;
    at_eq = λ i l. refl;
    same = record { size_eq = refl; contents_eq = λ i. refl };
  };
  position_law = λ s. record {
    after = s;
    returns = refl;
    pos_eq = refl;
    same = record { size_eq = refl; contents_eq = λ i. refl };
  };
}

stored_inside :
    (x : Bytes) (s : Ram) (i : ℕ) → i < x.len → (stored x s).bytes (s.place + i) ≡ x.at i
stored_inside x s i h = let e : s.place + i - s.place ≡ i = omega arith in ground arith

stored_outside :
    (x : Bytes) (s : Ram) (i : ℕ)
    → (i < s.place) ⊎ (s.place + x.len ≤ i)
    → (stored x s).bytes i ≡ s.bytes i
stored_outside x s i h = ground arith

ram-WritesDocumented : WritesDocumented ram contents size pos
ram-WritesDocumented = record {
  reads = ram-Documented;
  write_law = λ x s h. record {
    after = stored x s;
    returns = refl;
    inside = stored_inside x s;
    outside = stored_outside x s;
    size_eq = refl;
  };
  flush_law = λ s. record {
    after = s;
    returns = refl;
    same = record { size_eq = refl; contents_eq = λ i. refl };
  };
}

abbrev sevens : Bytes
sevens = record { len = page_size; at = λ i. 7 }

-- The page 2 is cached and dirty, over a disk of zeros.
abbrev cached : CachedBackend Ram
cached = record {
  backend = record { bytes = λ i. 0; place = 0 };
  cache = (2, sevens) ∷ [];
  dirty = (2, true) ∷ [];
  my_pos = 0;
  my_len = 4194304;
}

real_flush-PutAtNumber_example :
    PutAtNumber ram contents size pos ram-WritesDocumented 2 sevens cached (real_flush ram cached)
real_flush-PutAtNumber_example =
    real_flush-PutAtNumber ram contents size pos ram-WritesDocumented cached 2 sevens refl refl refl
      (omega arith)
