-- ===== src/Examples/Disks.antt =====
-- The cached backend before a disk of two pages that holds the byte `i % 256` at every place `i`.
use unico.Common.{◌∷◌, [], ℕ, ◌+◌, ◌%◌, ◌≡◌, refl, true, arith}
use unico.Disk.Pages.{PageType}
use unico.Disk.Io.{done, error, panicked, Op, Bytes, Backend, SeekFrom, start, end, current}
use unico.Disk.Cached.{new_with_len_known, CachedBackend, for_pages, write, read}
use unico.Disk.Cover.{Covers, pages, visit, for_pages-visit}
use unico.Disk.View.{Documented}
use unico.Disk.Reads.{Read, read-Read}
use unico.Disk.Invariant.{IsWellFormed}
use unico.Disk.Sessions.{
  IsU64, call_read, call_write, call_seek, call_real_flush, session, session-IsWellFormed,
}
use unico.Disk.Written.{
  FullPagesCached, Written, write-Written, write_then_read, ReadBack, write-read,
}
use unico.Disk.Writes.{write-panics}

-- The state is the position.
abbrev disk_bytes : ℕ → ℕ → Bytes
disk_bytes n p = record { len = n; at = λ i. (p + i) % 256 }

abbrev target : ℕ → SeekFrom → ℕ
target p (start q) = q
target p (end q) = 2097152
target p (current q) = p

abbrev disk : Backend (Unit {0}) ℕ
disk = record {
  open_image = λ path. done 0;
  create = λ path n. done (0, true);
  create_new = λ path n. error 17;
  real_flush = λ p. (done tt, p);
  read = λ n p. (done (disk_bytes n p), p + n);
  read_exact = λ n p. (done (disk_bytes n p), p + n);
  write = λ bytes p. (done bytes.len, p + bytes.len);
  write_all = λ bytes p. (done tt, p + bytes.len);
  flush = λ p. (done tt, p);
  seek = λ q p. (done (target p q), target p q);
  stream_position = λ p. (done p, p);
}

abbrev contents : ℕ → ℕ → ℕ
contents p i = i % 256

abbrev size : ℕ → ℕ
size p = 2097152

abbrev pos : ℕ → ℕ
pos p = p

abbrev cached : CachedBackend ℕ
cached = record { backend = 0; cache = []; dirty = []; my_pos = 1048000; my_len = 2097152 }

abbrev buffer : ℕ → Bytes
buffer n = record { len = n; at = λ i. 7 }

disk-Documented : Documented disk contents size pos
disk-Documented = record {
  seek_law = λ p s. record {
    after = p;
    returns = refl;
    pos_eq = refl;
    same = record { size_eq = refl; contents_eq = λ i. refl };
  };
  read_law = λ n s h. record {
    bytes = disk_bytes n s;
    after = s + n;
    returns = refl;
    len_eq = refl;
    at_eq = λ i l. refl;
    same = record { size_eq = refl; contents_eq = λ i. refl };
  };
  position_law = λ s. record {
    after = s;
    returns = refl;
    pos_eq = refl;
    same = record { size_eq = refl; contents_eq = λ i. refl };
  };
}

read-Read_example :
    Read disk contents size pos disk-Documented cached
      (buffer 1000)
      (read disk (buffer 1000) cached)
read-Read_example =
    read-Read disk contents size pos disk-Documented cached (buffer 1000) (λ k c e. cc)
      (omega arith) refl (omega arith)

no_full_page : FullPagesCached cached 1048000 1049000
no_full_page k g h e = omega arith

write-Written_example :
    Written disk contents size pos disk-Documented cached
      (buffer 1000)
      (write disk (buffer 1000) cached)
write-Written_example =
    write-Written disk contents size pos disk-Documented cached (buffer 1000) (λ k c e. cc)
      (omega arith) refl (omega arith) no_full_page

abbrev blank : Bytes
blank = record { len = 1000; at = λ i. 0 }

write-read_example :
    ReadBack disk contents size pos disk-Documented
      (buffer 1000)
      (write_then_read disk contents size pos disk-Documented (buffer 1000) blank 1048000 cached)
write-read_example =
    write-read disk contents size pos disk-Documented cached (buffer 1000) blank (λ k c e. cc)
      (omega arith) refl (omega arith) no_full_page refl

tiny : IsU64 (start 0)
tiny = omega arith

filled : (n p : ℕ) (x : Bytes) → (disk.read_exact n p).0 ≡ done x → x.len ≡ n
filled n p x e = cc

session-IsWellFormed_example : IsWellFormed (
    session disk
      (call_write (buffer 1000) ∷ call_seek (start 0) tiny ∷ call_read blank ∷ call_real_flush ∷ [])
      (new_with_len_known 0 2097152))
session-IsWellFormed_example =
    session-IsWellFormed disk (λ n p x e. filled n p x e) 0 2097152
      (call_write (buffer 1000) ∷ call_seek (start 0) tiny ∷ call_read blank ∷ call_real_flush ∷ [])

-- A loop that adds the pages' sizes.
abbrev add_sizes : ℕ → PageType → Op ℕ ℕ
add_sizes n p s = (done (n + 1), s + 1)

for_pages-visit_example :
    (for_pages add_sizes 2000000 (record { start = 1000; end = 2000000 }) 0 0
      ≡ visit add_sizes (pages 2000000 (record { start = 1000; end = 2000000 })) 0 0)
    × Covers 1000 2000000 (pages 2000000 (record { start = 1000; end = 2000000 }))
for_pages-visit_example =
    for_pages-visit add_sizes 2000000 1000 2000000 0 0 (omega arith) (omega arith) (omega arith)

abbrev at_start : CachedBackend ℕ
at_start = record { backend = 0; cache = []; dirty = []; my_pos = 0; my_len = 2097152 }

write-panics_example : write disk (buffer 2097152) at_start ≡ (panicked, at_start)
write-panics_example =
    write-panics disk at_start (buffer 2097152) refl (omega arith) refl (omega arith)
