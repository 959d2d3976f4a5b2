-- ===== src/Disk/Transparent.antt =====
-- The counting backend answers as the backend below, and counts the calls.
use unico.Common.{lt→ltb, ◌^◌, ◌<◌, ℕ, ◌+◌, ◌≡◌, refl, ap, ◌∙◌, List, [], ◌∷◌, arith}
use unico.Disk.Io.{Io, Bytes, SeekFrom, Backend}
use unico.Disk.Count.{RwCount, read, write, seek, stream_position, flush, real_flush}

pub data Call : Type 0 where
  call_read : ℕ → Call
  call_write : Bytes → Call
  call_seek : SeekFrom → Call
  call_stream_position : Call
  call_flush : Call
  call_real_flush : Call

pub data Reply : Type 0 where
  bytes : Io Bytes → Reply
  number : Io ℕ → Reply
  nothing : Io (Unit {0}) → Reply

-- A reply, and the state after the call.
abbrev pub reply : {A S : Type 0} → (Io A → Reply) → Io A × S → Reply × S
reply f x = (f x.0, x.1)

abbrev pub replies : {S : Type 0} → (Call → S → Reply × S) → List Call → S → List Reply × S
replies f [] s = ([], s)
replies f (c ∷ cs) s = let x = replies f cs (f c s).1 in ((f c s).0 ∷ x.0, x.1)

-- What a call adds to a count.
abbrev pub read_of : Call → ℕ
read_of (call_read n) = 1
read_of _ = 0

abbrev pub write_of : Call → ℕ
write_of (call_write x) = 1
write_of _ = 0

abbrev pub seek_of : Call → ℕ
seek_of (call_seek p) = 1
seek_of _ = 0

abbrev pub count : (Call → ℕ) → List Call → ℕ
count f [] = 0
count f (c ∷ cs) = f c + count f cs

module _ {ImagePath B : Type 0} (b : Backend ImagePath B) where
  abbrev pub call_below : Call → B → Reply × B
  call_below (call_read n) s = reply bytes (b.read n s)
  call_below (call_write x) s = reply number (b.write x s)
  call_below (call_seek p) s = reply number (b.seek p s)
  call_below call_stream_position s = reply number (b.stream_position s)
  call_below call_flush s = reply nothing (b.flush s)
  call_below call_real_flush s = reply nothing (b.real_flush s)

  abbrev pub call_counted : Call → RwCount B → Reply × RwCount B
  call_counted (call_read n) s = reply bytes (read b n s)
  call_counted (call_write x) s = reply number (write b x s)
  call_counted (call_seek p) s = reply number (seek b p s)
  call_counted call_stream_position s = reply number (stream_position b s)
  call_counted call_flush s = reply nothing (flush b s)
  call_counted call_real_flush s = reply nothing (real_flush b s)

  -- What a sequence of calls from the state `s` comes to.
  pub record Transparent (cs : List Call) (s : RwCount B) (x : List Reply × RwCount B)
      : Type 0 where
    pub replies_eq : x.0 ≡ (replies call_below cs s.backend).0
    pub backend_eq : x.1.backend ≡ (replies call_below cs s.backend).1
    pub reads_eq : x.1.read_count ≡ s.read_count + count read_of cs
    pub writes_eq : x.1.write_count ≡ s.write_count + count write_of cs
    pub seeks_eq : x.1.seek_count ≡ s.seek_count + count seek_of cs

  -- So many more calls do not overflow a count.
  pub record HasRoom (cs : List Call) (s : RwCount B) : Type 0 where
    pub reads_fit : s.read_count + count read_of cs < 2 ^ 64
    pub writes_fit : s.write_count + count write_of cs < 2 ^ 64
    pub seeks_fit : s.seek_count + count seek_of cs < 2 ^ 64

  -- One call.
  record Once (c : Call) (s : RwCount B) : Type 0 where
    reply_eq : (call_counted c s).0 ≡ (call_below c s.backend).0
    backend_eq : (call_counted c s).1.backend ≡ (call_below c s.backend).1
    reads_eq : (call_counted c s).1.read_count ≡ s.read_count + read_of c
    writes_eq : (call_counted c s).1.write_count ≡ s.write_count + write_of c
    seeks_eq : (call_counted c s).1.seek_count ≡ s.seek_count + seek_of c

  call-Once : (c : Call) (cs : List Call) (s : RwCount B) → HasRoom (c ∷ cs) s → Once c s
  unfolding read write seek stream_position flush real_flush
  call-Once (call_read n) cs s v =
      let l : s.read_count + 1 < 2 ^ 64 = omega (arith, v.reads_fit) in
      record {
        reply_eq = rw (lt→ltb _ _ l) refl;
        backend_eq = rw (lt→ltb _ _ l) refl;
        reads_eq = rw (lt→ltb _ _ l) refl;
        writes_eq = rw (lt→ltb _ _ l) (omega arith);
        seeks_eq = rw (lt→ltb _ _ l) (omega arith);
      }
  call-Once (call_write x) cs s v =
      let l : s.write_count + 1 < 2 ^ 64 = omega (arith, v.writes_fit) in
      record {
        reply_eq = rw (lt→ltb _ _ l) refl;
        backend_eq = rw (lt→ltb _ _ l) refl;
        reads_eq = rw (lt→ltb _ _ l) (omega arith);
        writes_eq = rw (lt→ltb _ _ l) refl;
        seeks_eq = rw (lt→ltb _ _ l) (omega arith);
      }
  call-Once (call_seek p) cs s v =
      let l : s.seek_count + 1 < 2 ^ 64 = omega (arith, v.seeks_fit) in
      record {
        reply_eq = rw (lt→ltb _ _ l) refl;
        backend_eq = rw (lt→ltb _ _ l) refl;
        reads_eq = rw (lt→ltb _ _ l) (omega arith);
        writes_eq = rw (lt→ltb _ _ l) (omega arith);
        seeks_eq = rw (lt→ltb _ _ l) refl;
      }
  call-Once call_stream_position cs s v = record {
    reply_eq = refl;
    backend_eq = refl;
    reads_eq = omega arith;
    writes_eq = omega arith;
    seeks_eq = omega arith;
  }
  call-Once call_flush cs s v = record {
    reply_eq = refl;
    backend_eq = refl;
    reads_eq = omega arith;
    writes_eq = omega arith;
    seeks_eq = omega arith;
  }
  call-Once call_real_flush cs s v = record {
    reply_eq = refl;
    backend_eq = refl;
    reads_eq = omega arith;
    writes_eq = omega arith;
    seeks_eq = omega arith;
  }

  -- Any sequence of calls of the counting backend, on counts that it does not bring to 2 ^ 64, gets the
  -- replies that the backend below gives to the same calls, leaves it in the same state, and adds the
  -- numbers of reads, writes and seeks to the counts.
  pub replies-Transparent :
      (cs : List Call) (s : RwCount B) → HasRoom cs s → Transparent cs s (replies call_counted cs s)
  replies-Transparent [] s v = record {
    replies_eq = refl;
    backend_eq = refl;
    reads_eq = omega arith;
    writes_eq = omega arith;
    seeks_eq = omega arith;
  }
  replies-Transparent (c ∷ cs) s v =
      let o : Once c s = call-Once c cs s v in
      let room : HasRoom cs (call_counted c s).1 = record {
        reads_fit = omega (arith, v.reads_fit, o.reads_eq);
        writes_fit = omega (arith, v.writes_fit, o.writes_eq);
        seeks_fit = omega (arith, v.seeks_fit, o.seeks_eq);
      } in
      let t : Transparent cs (call_counted c s).1 (replies call_counted cs (call_counted c s).1) =
        replies-Transparent cs (call_counted c s).1 room in
      record {
        replies_eq =
            ap (λ (r : Reply). r ∷ (replies call_counted cs (call_counted c s).1).0) o.reply_eq
            ∙ ap (λ (rs : List Reply). (call_below c s.backend).0 ∷ rs)
                (t.replies_eq ∙ ap (λ (u : B). (replies call_below cs u).0) o.backend_eq);
        backend_eq = t.backend_eq ∙ ap (λ (u : B). (replies call_below cs u).1) o.backend_eq;
        reads_eq = omega (arith, t.reads_eq, o.reads_eq);
        writes_eq = omega (arith, t.writes_eq, o.writes_eq);
        seeks_eq = omega (arith, t.seeks_eq, o.seeks_eq);
      }
