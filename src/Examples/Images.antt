-- ===== src/Examples/Images.antt =====
-- A file system that knows the lengths of its files, and an image that exists.
use unico.Common.{ℕ, ◌≡◌, refl, if◌then◌else◌, some, none, List, [], ◌∷◌}
use unico.Disk.Io.{done, error, pure}
use unico.Disk.Cached.{lookup, insert}
use unico.Disk.Files.{
  Files, IsKeeping, open_or_create, sync_open, sync_create_new, unico_open, unico_create_new,
  open_or_create_lem,
}

abbrev S : Type 0
S = List (ℕ × ℕ)

abbrev lengths : Files ℕ ℕ S
lengths = record {
  open_with = λ o path s. (
    elim (lookup path s) [ some n ↦ done path | none ↦ if o.create then done path else error 2 ],
    if o.create then insert path 0 s else s,
  );
  create_new = λ path s. (
    elim (lookup path s) [ some n ↦ error 17 | none ↦ done path ],
    elim (lookup path s) [ some n ↦ s | none ↦ insert path 0 s ],
  );
  set_len = λ path n s. (done tt, insert path n s);
}

abbrev Image : S → Type 0
Image s = (n : ℕ) × (lookup 7 s ≡ some n)

keeping : IsKeeping lengths (λ s. s) Image 7
keeping = record {
  opens = λ s o. refl;
  stays = λ s o. o;
  refuses = λ s (n, q). (17, rw (q, lengths) refl);
  refused = λ s (n, q). rw (q, lengths) refl;
}

open_or_create_lem_example :
    ((open_or_create
        (sync_open lengths 7)
        (sync_create_new lengths 7 512 (λ f. pure tt))
        ((7, 100) ∷ [])).1
      ≡ (7, 100) ∷ [])
    × ((open_or_create
          (unico_open lengths 7)
          (unico_create_new lengths 7 512 (λ f. pure tt))
          ((7, 100) ∷ [])).1
        ≡ (7, 100) ∷ [])
open_or_create_lem_example =
    open_or_create_lem lengths (λ s. s) Image 7 keeping 512 (λ f. pure tt) (λ f. pure tt)
      ((7, 100) ∷ []) (100, refl)
