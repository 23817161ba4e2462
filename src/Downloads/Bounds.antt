-- ===== src/Downloads/Bounds.antt =====
-- The ranges that parseSingleRange of backend/internal/http/files.go lets through, and their bytes.
use personal_space.Prelude.{
  ℕ, ◌+◌, ◌-◌, ◌≤◌, ◌<◌, ◌≡◌, refl, Text, some, ok, length, take, drop, length-take, length-drop,
  arith, pos, negsuc,
}
use personal_space.Storage.Path.{CleanPath}
use personal_space.Storage.Files.{Bytes, Files, no_faults, path_of, get_range_stream}
use personal_space.Downloads.Range.{Range, parse_single_range}

-- A range within an object, or the suffix of an empty one.
abbrev pub InObject : ℕ → Range → Type 0
InObject size r = elim r.end as (λ e. Type 0) [
  | pos end ↦ (r.start ≤ end) × (end < size)
  | negsuc n ↦ (size ≡ 0) × (r.start ≡ 0) × (n ≡ 0)
]

-- A range that is accepted starts no later than it ends and ends within the object, unless the
-- object is empty; then it is a suffix range, from 0 to -1.
pub parse_single_range-InObject :
    (header : Text) (size : ℕ) (r : Range)
    → parse_single_range header size ≡ some r
    → InObject size r
unfolding parse_single_range
parse_single_range-InObject header size r h = ground arith

-- For an accepted range of an object that is not empty the storage delivers exactly the bytes from
-- the first to the last, `end - start + 1` of them, which is the Content-Length.
pub get_range_stream-length :
    (root : CleanPath) (key path : Text) (files : Files) (content : Bytes) (header : Text)
    (r : Range) (end : ℕ)
    → path_of root key ≡ ok path
    → files path ≡ some content
    → parse_single_range header (length content) ≡ some r
    → r.end ≡ pos end
    → (b : Bytes) × ((get_range_stream root no_faults key (pos r.start) r.end files).0 ≡ ok b)
      × (b ≡ take (end - r.start + 1) (drop r.start content))
      × (length b ≡ end - r.start + 1)
unfolding get_range_stream
get_range_stream-length root key path files content header r end named found parsed last =
    let inside = parse_single_range-InObject header (length content) r parsed in
    (
      take (end - r.start + 1) (drop r.start content),
      ground (arith, named, found, inside, last),
      refl,
      ground (
        arith,
        inside,
        last,
        length-take (end - r.start + 1) (drop r.start content),
        length-drop r.start content,
      ),
    )
