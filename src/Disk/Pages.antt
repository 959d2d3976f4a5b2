-- ===== src/Disk/Pages.antt =====
-- demo/demo-fatfs/src/backend/cached.rs, `PageRange`: a byte range cut at the borders of pages.

use unico.Common.{ℕ, ◌+◌, ◌-◌, ◌*◌, ◌/◌, ◌%◌, ◌^◌, ◌==◌, leb, if◌then◌else◌}

abbrev pub page_size : ℕ
page_size = 1048576

pub data PageType : Type 0 where
  full_page : ℕ → PageType
  partial_page : ℕ → ℕ → ℕ → PageType

pub record PageRange : Type 0 where
  pub start : ℕ
  pub end : ℕ

-- What `next` comes to; `overflowed` is a panic.
pub data Next : Type 0 where
  finished : Next
  page : PageType → PageRange → Next
  overflowed : Next

-- `(start + 1).next_multiple_of(PAGE_SIZE)`, before the overflow check
unfoldable pub next_page : ℕ → ℕ
next_page start = (start / page_size + 1) * page_size

unfoldable pub next : PageRange → Next
next r =
    if leb r.end r.start
    then finished
    else if leb (2 ^ 64) expected_end
    then overflowed
    else if offset == 0
    then (if leb expected_end r.end
        then page (full_page number) (record r { start = expected_end })
        else page (partial_page number 0 (r.end - r.start)) (record r { start = r.end }))
    else if leb expected_end r.end
    then page (partial_page number offset (expected_end - r.start))
        (record r { start = expected_end })
    else page (partial_page number offset (r.end - r.start)) (record r { start = r.end })
  where
    number : ℕ
    number = r.start / page_size

    offset : ℕ
    offset = r.start % page_size

    expected_end : ℕ
    expected_end = next_page r.start
