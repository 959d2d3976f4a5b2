-- ===== src/Disk/Sessions.antt =====
-- Sequences of calls of the cached backend keep its invariant.
use unico.Common.{ℕ, ◌^◌, ◌<◌, ◌≡◌, refl, List, [], ◌∷◌, arith}
use unico.Disk.Io.{
  Io, done, error, panicked, Op, pure, modify, ◌>>=◌, ◌>>◌, get, Bytes, Backend, SeekFrom, start,
  end, current,
}
use unico.Disk.Cached.{
  CachedBackend, read_page, read, write_page, write, add_u64, for_pages, new_with_len_known,
  real_flush, seek, stream_position, flush,
}
use unico.Disk.Invariant.{IsWellFormed, Post, Post-and_then, Anything, add_u64-Post}
use unico.Disk.FlushUpheld.{real_flush-Post}
use unico.Disk.Upheld.{for_pages-Post, read_page-Post}
use unico.Disk.WriteUpheld.{write_page-Post}

-- The position is a `u64`.
abbrev pub IsU64 : SeekFrom → Type 0
IsU64 (start p) = p < 2 ^ 64
IsU64 (end p) = p < 2 ^ 64
IsU64 (current p) = p < 2 ^ 64

pub data Call : Type 0 where
  call_read : Bytes → Call
  call_write : Bytes → Call
  call_seek : (p : SeekFrom) → IsU64 p → Call
  call_stream_position : Call
  call_flush : Call
  call_real_flush : Call

module _ {ImagePath B : Type 0} (b : Backend ImagePath B) where
  -- The state after a call, however it ends.
  unfoldable pub perform : Call → CachedBackend B → CachedBackend B
  perform (call_read buf) s = (read b buf s).1
  perform (call_write buf) s = (write b buf s).1
  perform (call_seek p f) s = (seek b p s).1
  perform call_stream_position s = (stream_position b s).1
  perform call_flush s = (flush b s).1
  perform call_real_flush s = (real_flush b s).1

  unfoldable pub session : List Call → CachedBackend B → CachedBackend B
  session [] s = s
  session (c ∷ cs) s = session cs (perform c s)

  Post-IsWellFormed :
      {A : Type 0} (q : A → Type 0) (x : Io A × CachedBackend B) → Post q x → IsWellFormed x.1
  Post-IsWellFormed q (done a, t) w = w.0
  Post-IsWellFormed q (error e, t) w = w
  Post-IsWellFormed q (panicked, t) w = w

  -- The position goes on by the count.
  abbrev advance : {A : Type 0} → ℕ → A → Op (CachedBackend B) A
  advance n a = do
    s' ← get
    pos ← add_u64 b s'.my_pos n
    modify λ t. record t { my_pos = pos }
    pure a

  advance-Post :
      {A : Type 0} (n : ℕ) (a : A) (s : CachedBackend B)
      → IsWellFormed s
      → Post Anything (advance n a s)
  advance-Post n a s w =
      Post-and_then (λ (z : ℕ). z < 2 ^ 64) Anything (add_u64 b s.my_pos n s)
        (λ pos. modify (λ t. record t { my_pos = pos }) >> pure a) (add_u64-Post b s.my_pos n s w)
        (λ pos t q v. (record { whole = v.whole; flagged = v.flagged; pos_fits = q }, tt))

  module _ (exact : (n : ℕ) (s : B) (x : Bytes) → (b.read_exact n s).0 ≡ done x → x.len ≡ n) where
    read-Post : (buf : Bytes) (s : CachedBackend B) → IsWellFormed s → Post Anything (read b buf s)
    unfolding read
    read-Post buf s w =
        Post-and_then (λ (z : ℕ). z < 2 ^ 64) Anything (add_u64 b s.my_pos buf.len s)
          (λ last.
            for_pages (read_page b) buf.len (record { start = s.my_pos; end = last }) (buf, 0)
            >>= λ x. advance x.1 x)
          (add_u64-Post b s.my_pos buf.len s w)
          (λ last t q v.
            Post-and_then Anything Anything
              (for_pages (read_page b) buf.len (record { start = s.my_pos; end = last }) (buf, 0) t)
              (λ x. advance x.1 x)
              (for_pages-Post Anything (read_page b) (λ a p u o y. read_page-Post b exact a p u y)
                buf.len (record { start = s.my_pos; end = last }) (buf, 0) t tt v)
              (λ x u o y. advance-Post x.1 x u y))

    write-Post :
        (buf : Bytes) (s : CachedBackend B) → IsWellFormed s → Post Anything (write b buf s)
    unfolding write
    write-Post buf s w =
        Post-and_then (λ (z : ℕ). z < 2 ^ 64) Anything (add_u64 b s.my_pos buf.len s)
          (λ last.
            for_pages (write_page b buf) buf.len (record { start = s.my_pos; end = last }) 0
            >>= λ n. advance n n)
          (add_u64-Post b s.my_pos buf.len s w)
          (λ last t q v.
            Post-and_then Anything Anything
              (for_pages (write_page b buf) buf.len (record { start = s.my_pos; end = last }) 0 t)
              (λ n. advance n n)
              (for_pages-Post Anything (write_page b buf)
                (λ a p u o y. write_page-Post b exact buf a p u y) buf.len
                (record { start = s.my_pos; end = last }) 0 t tt v)
              (λ n u o y. advance-Post n n u y))

    seek-IsWellFormed :
        (p : SeekFrom) (s : CachedBackend B)
        → IsU64 p
        → IsWellFormed s
        → IsWellFormed (seek b p s).1
    unfolding seek
    seek-IsWellFormed (start p) s f w = record {
      whole = w.whole;
      flagged = w.flagged;
      pos_fits = f;
    }
    seek-IsWellFormed (end p) s f w = record {
      whole = w.whole;
      flagged = w.flagged;
      pos_fits = omega arith;
    }
    seek-IsWellFormed (current p) s f w = record {
      whole = w.whole;
      flagged = w.flagged;
      pos_fits = omega arith;
    }

    perform-IsWellFormed :
        (c : Call) (s : CachedBackend B) → IsWellFormed s → IsWellFormed (perform c s)
    unfolding perform stream_position flush
    perform-IsWellFormed (call_read buf) s w =
        Post-IsWellFormed Anything (read b buf s) (read-Post buf s w)
    perform-IsWellFormed (call_write buf) s w =
        Post-IsWellFormed Anything (write b buf s) (write-Post buf s w)
    perform-IsWellFormed (call_seek p f) s w = seek-IsWellFormed p s f w
    perform-IsWellFormed call_stream_position s w = w
    perform-IsWellFormed call_flush s w = w
    perform-IsWellFormed call_real_flush s w =
        Post-IsWellFormed Anything (real_flush b s) (real_flush-Post b exact s w)

    continued-IsWellFormed :
        (cs : List Call) (s : CachedBackend B) → IsWellFormed s → IsWellFormed (session cs s)
    unfolding session
    continued-IsWellFormed [] s w = w
    continued-IsWellFormed (c ∷ cs) s w =
        continued-IsWellFormed cs (perform c s) (perform-IsWellFormed c s w)

    -- After any sequence of calls on a new cached backend, each of which may succeed, fail or panic, the
    -- cached pages have their full size, the pages with a dirty flag are the cached ones, and the
    -- position is a `u64`, provided that a successful `read_exact` of the backend below fills its buffer.
    pub session-IsWellFormed :
        (backend : B) (len : ℕ) (cs : List Call)
        → IsWellFormed (session cs (new_with_len_known backend len))
    unfolding new_with_len_known
    session-IsWellFormed backend len cs =
        continued-IsWellFormed cs (new_with_len_known backend len)
          (record { whole = λ k c e. cc; flagged = λ k. refl; pos_fits = omega arith })
