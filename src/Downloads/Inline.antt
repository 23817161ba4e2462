-- ===== src/Downloads/Inline.antt =====
-- What streamOwnedFile of backend/internal/http/files.go lets through, and what it sends.
use personal_space.Prelude.{
  ℕ, ◌+◌, ◌-◌, ◌≡◌, ◌⊎◌, inl, inr, Bool, true, false, Text, none, some, ok, err, find, is_empty,
  trim_space, length, take, drop, arith, pos, Result-cases, Option-cases, Bool-cases, ℤ-cases,
  length-take, length-drop,
}
use personal_space.Database.Rows.{Database, FileRow}
use personal_space.Storage.Path.{CleanPath}
use personal_space.Storage.Files.{Bytes, path_of, stat, get_stream, get_range_stream}
use personal_space.Server.World.{World, Response, serve}
use personal_space.Downloads.Range.{Range, parse_single_range}
use personal_space.Downloads.Bounds.{parse_single_range-InObject}
use personal_space.Downloads.Stream.{
  Reply, Delivery, Source, SendFaults, GateFaults, delivered, owned_file, fetch_owned_file,
  source_of, inline_source, send, stream_owned_file, load_variant,
}

-- An answer that carries an object.
abbrev pub is_delivered : Reply → Bool
is_delivered (delivered d) = true
is_delivered _ = false

module _ (root : CleanPath) (faults : SendFaults) where
  pub send-world :
      (source : Source) (inline : Bool) (header : Text) (w : World)
      → (serve (send root faults source inline header) w).1 ≡ w
  unfolding send stat get_stream get_range_stream
  send-world source inline header w = ground arith

module _ (root : CleanPath) (faults : SendFaults) where
  pub send-err :
      (source : Source) (inline : Bool) (header : Text) (w : World) (r : Response Reply)
      → (send root faults source inline header w).0 ≡ err r
      → is_delivered r.body ≡ false
  unfolding send stat get_stream get_range_stream
  send-err source inline header w r h = ground arith

pub source_of-error :
    (gate : GateFaults) (public inline : Bool) (query : Text) (rec : FileRow) (db : Database)
    (r : Response Reply)
    → source_of gate public inline query rec db ≡ err r
    → is_delivered r.body ≡ false
unfolding inline_source load_variant
source_of-error gate public inline query rec db r h = ground arith

module _ (root : CleanPath) (faults : SendFaults) (load : Bool) (gate : GateFaults) (inline : Bool)
    (owner id : ℕ) (query header : Text) (w : World) where
  -- A stream_owned_file that delivers an object delivers one of a live file of the caller: its
  -- answer is what sending the object that the gate chose of this file gives. It changes nothing.
  pub stream_owned_file-delivered :
      is_delivered
          (serve
            (stream_owned_file root faults load gate inline (some owner) (some id) query header)
            w).0.body
        ≡ true
      → (rec : FileRow) × (find (owned_file id owner) w.db.files ≡ some rec)
        × (source : Source) × (source_of gate false inline query rec w.db ≡ ok source)
        × (serve
              (stream_owned_file root faults load gate inline (some owner) (some id) query header)
              w
            ≡ ((serve (send root faults source inline header) w).0, w))
  unfolding stream_owned_file fetch_owned_file
  stream_owned_file-delivered h = elim (Option-cases (find (owned_file id owner) w.db.files)) [
    | inl missing ↦ absurd (ground arith)
    | inr (rec, found) ↦ elim (Result-cases (source_of gate false inline query rec w.db)) [
      | inl (source, e) ↦ (
        rec,
        found,
        source,
        e,
        ground (arith, found, send-world root faults source inline header w),
      )
      | inr (r, e) ↦
          absurd (ground (arith, found, source_of-error gate false inline query rec w.db r e))
    ]
  ]

-- What is sent of an object: all of it, or the bytes of a range within it.
abbrev pub IsSent : Text → Bytes → ℕ → Delivery → Type 0
IsSent header content code d =
    ((code ≡ 200) × (d.range ≡ none) × (d.bytes ≡ content))
    ⊎ ((code ≡ 206)
        × (r : Range) × (end : ℕ) × (parse_single_range (trim_space header) (length content)
            ≡ some r)
        × (d.range ≡ some r)
        × (r.end ≡ pos end)
        × (d.bytes ≡ take (end - r.start + 1) (drop r.start content))
        × (length d.bytes ≡ end - r.start + 1))

module _ (root : CleanPath) (faults : SendFaults) (source : Source) (inline : Bool) (header : Text)
    (w : World) (path : Text) (content : Bytes) (d : Delivery)
    (named : path_of root source.key ≡ ok path) (found : w.disk path ≡ some content) where
  -- An object that is delivered is sent with its size, and whole, or else exactly the bytes of a range
  -- within it; which of the two is not tied to the header here. An inline one is sent in a sandbox.
  pub send-IsSent :
      (serve (send root faults source inline header) w).0.body ≡ delivered d
      → IsSent header content (serve (send root faults source inline header) w).0.code d
        × (d.size ≡ length content)
        × (d.content_type ≡ source.mime)
        × (d.sandbox ≡ inline)
  unfolding send stat get_stream get_range_stream
  send-IsSent h = (
    elim (Bool-cases (is_empty (trim_space header))) [
      | inl whole ↦ inl ground (arith, named, found)
      | inr part ↦ elim (Option-cases (parse_single_range (trim_space header) (length content))) [
        | inl refused ↦ absurd (ground (arith, named, found))
        | inr (r, parsed) ↦ elim (ℤ-cases r.end) [
          | inr (n, e) ↦ absurd (ground (arith, named, found))
          | inl (end, e) ↦
              let inside =
                parse_single_range-InObject (trim_space header) (length content) r parsed in
              inr (
                ground (arith, named, found),
                r,
                end,
                parsed,
                ground (arith, named, found),
                e,
                ground (arith, named, found, inside),
                ground (
                  arith,
                  named,
                  found,
                  inside,
                  length-take (end - r.start + 1) (drop r.start content),
                  length-drop r.start content,
                ),
              )
        ]
      ]
    ],
    ground (arith, named, found),
    ground (arith, named, found),
    ground (arith, named, found),
  )
