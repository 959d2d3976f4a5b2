-- ===== src/Disk/Flushes.antt =====
-- Where `real_flush` of the cached backend writes a dirty page.
use unico.Common.{false, ℕ, ◌+◌, ◌≤◌, ◌<◌, ◌≡◌, refl, ◌⊎◌, ◌∙◌, true, some, [], ◌∷◌, arith, subst}
use unico.Disk.Pages.{page_size}
use unico.Disk.Io.{Io, done, Bytes, Backend, start}
use unico.Disk.Cached.{CachedBackend, lookup, insert, real_flush, flush_pages}
use unico.Disk.Below.{Same, Sought}
use unico.Disk.View.{Documented}

-- What a call of `write_all` gives, for bytes that lie on the disk.
pub record Placed {B : Type 0} (contents : B → ℕ → ℕ) (size pos : B → ℕ) (x : Bytes) (s : B)
    (result : Io (Unit {0}) × B) : Type 0 where
  pub after : B
  pub returns : result ≡ (done tt, after)
  pub inside : (i : ℕ) → i < x.len → contents after (pos s + i) ≡ x.at i
  pub outside : (i : ℕ) → (i < pos s) ⊎ (pos s + x.len ≤ i) → contents after i ≡ contents s i
  pub size_eq : size after ≡ size s

-- What a call of `real_flush` of the backend below gives.
pub record Flushed {B : Type 0} (contents : B → ℕ → ℕ) (size : B → ℕ) (s : B)
    (result : Io (Unit {0}) × B) : Type 0 where
  pub after : B
  pub returns : result ≡ (done tt, after)
  pub same : Same contents size s after

-- The documented behaviour of the backend below, in writes.
pub record WritesDocumented {ImagePath B : Type 0} (b : Backend ImagePath B) (contents : B → ℕ → ℕ)
    (size pos : B → ℕ) : Type 0 where
  pub reads : Documented b contents size pos
  pub write_law :
      (x : Bytes) (s : B) → pos s + x.len ≤ size s → Placed contents size pos x s (b.write_all x s)
  pub flush_law : (s : B) → Flushed contents size s (b.real_flush s)

module _ {ImagePath B : Type 0} (b : Backend ImagePath B) (contents : B → ℕ → ℕ) (size pos : B → ℕ)
    (laws : WritesDocumented b contents size pos) where
  -- A flush that put the page's bytes below from the byte `number` on, and changed no other byte.
  pub record PutAtNumber (number : ℕ) (page : Bytes) (s : CachedBackend B)
      (result : Io (Unit {0}) × CachedBackend B) : Type 0 where
    pub after : CachedBackend B
    pub returns : result ≡ (done tt, after)
    pub inside : (i : ℕ) → i < page_size → contents after.backend (number + i) ≡ page.at i
    pub outside :
        (i : ℕ)
        → (i < number) ⊎ (number + page_size ≤ i)
        → contents after.backend i ≡ contents s.backend i
    pub cache_eq : after.cache ≡ s.cache

  -- Where one page is cached and it is dirty, `real_flush` writes it from the byte whose place is the
  -- page's number, and not from the byte where the page begins: of the other bytes below none changes.
  pub real_flush-PutAtNumber :
      (s : CachedBackend B) (number : ℕ) (page : Bytes)
      → s.cache ≡ (number, page) ∷ []
      → lookup number s.dirty ≡ some true
      → page.len ≡ page_size
      → number + page_size ≤ size s.backend
      → PutAtNumber number page s (real_flush b s)
  unfolding real_flush flush_pages
  real_flush-PutAtNumber s number page c d l h =
      let p : Sought contents size pos (pos s.backend) s.backend (b.stream_position s.backend) =
        laws.reads.position_law s.backend in
      let k : Sought contents size pos number p.after (b.seek (start number) p.after) =
        laws.reads.seek_law number p.after in
      let w : Placed contents size pos page k.after (b.write_all page k.after) =
        laws.write_law page k.after (omega (arith, k.pos_eq, k.same.size_eq, p.same.size_eq)) in
      let f : Flushed contents size w.after (b.real_flush w.after) = laws.flush_law w.after in
      let r : Sought contents size pos (pos s.backend) f.after
          (b.seek (start (pos s.backend)) f.after) =
        laws.reads.seek_law (pos s.backend) f.after in
      record {
        after = record s { backend = r.after; dirty = insert number false s.dirty };
        returns =
            rw
              (real_flush, p.returns, c, flush_pages, d, k.returns, w.returns, f.returns, r.returns)
              refl;
        inside = λ i m.
            r.same.contents_eq (number + i)
            ∙ f.same.contents_eq (number + i)
            ∙ subst (λ (q : ℕ). contents w.after (q + i) ≡ page.at i) k.pos_eq
                (w.inside i (omega arith));
        outside = λ i o.
            r.same.contents_eq i
            ∙ f.same.contents_eq i
            ∙ w.outside i (omega (arith, o, k.pos_eq))
            ∙ k.same.contents_eq i
            ∙ p.same.contents_eq i;
        cache_eq = refl;
      }
