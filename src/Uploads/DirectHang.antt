-- ===== src/Uploads/DirectHang.antt =====
-- Where uploadFiles of backend/internal/http/files.go waits for ever: copyPartToStorage closes the end of
-- the pipe that it reads from only after the goroutine that writes to it has reported.
use personal_space.Prelude.{
  ℕ, zero, suc, ◌+◌, ◌<◌, ◌⊎◌, ◌||◌, ◌≡◌, ◌↔◌, refl, inl, inr, Bool, true, false, Text, codes,
  text_eq, trim_space, is_empty, Option, none, some, Result, ok, err, List, [], ◌∷◌, length, ltb,
  Exec, ◌>>=◌, ◌>>◌, ◌∙◌, sym, if◌then◌else◌, ℤ, Result-cases, arith,
}
use personal_space.Database.Rows.{FileRow}
use personal_space.Storage.Path.{CleanPath, StorageError}
use personal_space.Storage.Files.{Bytes, Files, DiskFaults, move}
use personal_space.Server.World.{World, on_disk}
use personal_space.Uploads.Init.{Keys, exceeds}
use personal_space.Uploads.Direct.{
  Part, Sniffed, PartFaults, PartEnd, PumpError, blocked, upload_exceeded, read_failed, hangs,
  skips, too_large, rejects, is_over, one_less, ended, taken, pump, copy_part_to_storage,
  persist_tx, persist, moved_or, upload_parts, Uploaded, removed_on, or_delete, store_part,
  record_part, PartRun, row_of, target_name, upload_part,
}

-- The pieces that are read before the bound is passed.
abbrev pub pieces_within : Option ℤ → ℕ → List Bytes → List Bytes
pieces_within max size [] = []
pieces_within max size (c ∷ cs) =
    let skipped = pieces_within max size cs in
    let rest = pieces_within max (size + length c) cs in
    if is_empty c then skipped else if exceeds max (size + length c) then [] else c ∷ rest

abbrev is_blocked : Option PumpError → Bool
is_blocked (some blocked) = true
is_blocked _ = false

abbrev is_short : Option ℕ → ℕ → Bool
is_short none k = false
is_short (some n) k = ltb n k

ended-is_blocked : (e : Option Text) → is_blocked (ended e) ≡ false
ended-is_blocked none = refl
ended-is_blocked (some e) = refl

is_short-zero : (reads : Option ℕ) → is_short reads 0 ≡ false
is_short-zero none = refl
is_short-zero (some n) = ground arith

is_short-suc :
    (reads : Option ℕ) (k : ℕ)
    → is_short reads (suc k) ≡ (is_over reads || is_short (one_less reads) k)
is_short-suc none k = refl
is_short-suc (some zero) k = ground arith
is_short-suc (some (suc n)) k = ground arith

-- The goroutine blocks exactly where the reader takes fewer pieces than there are within the bound.
pump-is_blocked :
    (max : Option ℤ) (broken_by : Option Text) (reads : Option ℕ) (size : ℕ) (cs : List Bytes)
    → is_blocked (pump max broken_by reads size cs).error
      ≡ is_short reads (length (pieces_within max size cs))
unfolding pump
pump-is_blocked max broken_by reads size [] =
    ground (arith, ended-is_blocked broken_by, is_short-zero reads)
pump-is_blocked max broken_by reads size (c ∷ cs) = ground (
  arith,
  pump-is_blocked max broken_by reads size cs,
  pump-is_blocked max broken_by (one_less reads) (size + length c) cs,
  is_short-zero reads,
  is_short-suc reads (length (pieces_within max (size + length c) cs)),
)

error-cases :
    (e : Option PumpError)
    → (e ≡ none)
      ⊎ (e ≡ some upload_exceeded)
      ⊎ (e ≡ some blocked)
      ⊎ ((t : Text) × (e ≡ some (read_failed t)))
error-cases none = inl refl
error-cases (some upload_exceeded) = inr (inl refl)
error-cases (some blocked) = inr (inr (inl refl))
error-cases (some (read_failed t)) = inr (inr (inr (t, refl)))

abbrev waits : {A : Type 0} → Result PartEnd A → Bool
waits (err hangs) = true
waits _ = false

waits-hangs : {A : Type 0} (r : Result PartEnd A) → waits r ≡ true → r ≡ err hangs
waits-hangs (ok a) h = cc
waits-hangs (err skips) h = cc
waits-hangs (err too_large) h = cc
waits-hangs (err (rejects e)) h = cc
waits-hangs (err hangs) h = refl

module _ (root : CleanPath) (storage_text : StorageError → Text) (faults : PartFaults) (key : Text)
    (max : Option ℤ) (part : Part) (w : World) where
  abbrev pumped : Option PumpError
  pumped = (pump max part.broken_by (taken root faults.put key faults.reads) 0 part.chunks).error

  -- The copy waits for the goroutine.
  copy_part-waits :
      waits (copy_part_to_storage root storage_text faults key max part w).0 ≡ is_blocked pumped
  unfolding copy_part_to_storage
  copy_part-waits = elim (error-cases pumped) [
    | inl e ↦ ground (arith, e)
    | inr (inl e) ↦ ground (arith, e)
    | inr (inr (inl e)) ↦ ground (arith, e)
    | inr (inr (inr (t, e))) ↦ ground (arith, e)
  ]

persist-waits :
    (faults : PartFaults) (owner : ℕ) (row : FileRow) (w : World)
    → waits (persist faults owner row w).0 ≡ false
unfolding persist persist_tx
persist-waits faults owner row w = ground arith

removed-waits :
    {A : Type 0} (root : CleanPath) (faults : DiskFaults) (key : Text)
    (r : Result PartEnd A × World)
    → waits (removed_on root faults key r).0 ≡ waits r.0
removed-waits root faults key (ok a, w) = refl
removed-waits root faults key (err hangs, w) = refl
removed-waits root faults key (err skips, w) = refl
removed-waits root faults key (err too_large, w) = refl
removed-waits root faults key (err (rejects e), w) = refl

-- Where what comes after does not wait, the whole waits exactly where the first does.
bind-waits :
    {A B : Type 0} (m : Exec World PartEnd A) (k : A → Exec World PartEnd B) (w : World)
    → ((a : A) (v : World) → waits (k a v).0 ≡ false)
    → waits ((m >>= k) w).0 ≡ waits (m w).0
bind-waits m k w calm = elim (Result-cases (m w).0) [
  | inl (a, e) ↦ ground (arith, e, calm a (m w).1)
  | inr (f, e) ↦ ground (arith, e)
]

moved-waits :
    (m : Files → Result StorageError (Unit {0}) × Files) (w : World)
    → waits ((on_disk m >>= moved_or) w).0 ≡ false
moved-waits m w = elim (Result-cases (m w.disk).0) [
  | inl (u, e) ↦ ground (arith, e)
  | inr (f, e) ↦ ground (arith, e)
]

end-cases :
    {A : Type 0} (r : Result PartEnd A)
    → ((a : A) × (r ≡ ok a))
      ⊎ (r ≡ err hangs)
      ⊎ (r ≡ err skips)
      ⊎ (r ≡ err too_large)
      ⊎ ((t : Text) × (r ≡ err (rejects t)))
end-cases (ok a) = inl (a, refl)
end-cases (err hangs) = inr (inl refl)
end-cases (err skips) = inr (inr (inl refl))
end-cases (err too_large) = inr (inr (inr (inl refl)))
end-cases (err (rejects t)) = inr (inr (inr (inr (t, refl))))

is_short_iff :
    (reads : Option ℕ) (k : ℕ) → (is_short reads k ≡ true) ↔ ((n : ℕ) × (reads ≡ some n) × (n < k))
is_short_iff none k = (λ h. cc, λ (n, e, lt). cc)
is_short_iff (some m) k = (λ h. (m, refl, ground (arith, h)), λ (n, e, lt). ground (arith, e, lt))

module _ (root : CleanPath) (storage_text : StorageError → Text) (sniff : Bytes → Sniffed)
    (keys : Keys) (max : Option ℤ) (owner : ℕ) (folder : Option ℕ) (run : PartRun) (w : World) where
  abbrev temp : Text
  temp = keys.temp owner run.id

  abbrev copy : Exec World PartEnd ℕ
  copy = copy_part_to_storage root storage_text run.faults temp max run.part

  record_part-waits :
      (size : ℕ) (v : World)
      → waits (record_part root storage_text sniff keys max owner folder run size v).0 ≡ false
  unfolding record_part
  record_part-waits size v =
      let final = keys.final owner run.now run.id in
      let row = row_of root storage_text sniff keys max owner folder run size in
      let kept = removed-waits root run.faults.clean final (persist run.faults owner row v) in
      elim (Result-cases
        (or_delete root run.faults.clean final (persist run.faults owner row) v).0) [
          | inl (u, e) ↦ ground (arith, e)
          | inr (f, e) ↦ ground (arith, e, kept, persist-waits run.faults owner row v)
        ]

  -- Nothing after the copy waits.
  store_part-waits :
      waits (store_part root storage_text sniff keys max owner folder run w).0 ≡ waits (copy w).0
  unfolding store_part
  store_part-waits =
      let final = keys.final owner run.now run.id in
      let record_all = record_part root storage_text sniff keys max owner folder run in
      let move_it = on_disk (move root run.faults.disk temp final) >>= moved_or in
      bind-waits (or_delete root run.faults.clean temp copy)
        (λ size. or_delete root run.faults.clean temp move_it >> record_all size) w
        (λ size v.
          bind-waits (or_delete root run.faults.clean temp move_it) (λ u. record_all size) v
            (λ u x. record_part-waits size x)
          ∙ removed-waits root run.faults.clean temp (move_it v)
          ∙ moved-waits (move root run.faults.disk temp final) v)
      ∙ removed-waits root run.faults.clean temp (copy w)

  -- The form whose last part this is has an answer exactly where the part does not wait.
  last_part-waits :
      (malformed : Bool) (rs : List Uploaded) (created : ℕ)
      → ((upload_parts root storage_text sniff keys max owner folder malformed
            (run ∷ [])
            rs
            created
            w).0
          ≡ none)
        ↔ (waits (upload_part root storage_text sniff keys max owner folder run w).0 ≡ true)
  unfolding upload_parts
  last_part-waits malformed rs created =
      elim (end-cases (upload_part root storage_text sniff keys max owner folder run w).0) [
        | inl (u, e) ↦ ground (arith, e)
        | inr (inl e) ↦ ground (arith, e)
        | inr (inr (inl e)) ↦ ground (arith, e)
        | inr (inr (inr (inl e))) ↦ ground (arith, e)
        | inr (inr (inr (inr (t, e)))) ↦ ground (arith, e)
      ]

  upload_part-waits :
      text_eq run.part.form_name (codes "file") ≡ true
      → is_empty (trim_space run.part.file_name) ≡ false
      → is_empty (target_name root storage_text sniff keys max owner folder run.part) ≡ false
      → waits (upload_part root storage_text sniff keys max owner folder run w).0
        ≡ is_short
            (taken root run.faults.put temp run.faults.reads)
            (length (pieces_within max 0 run.part.chunks))
  unfolding upload_part
  upload_part-waits form named valid =
      let stored =
        store_part-waits
        ∙ copy_part-waits root storage_text run.faults temp max run.part w
        ∙ pump-is_blocked max run.part.broken_by (taken root run.faults.put temp run.faults.reads) 0
            run.part.chunks in
      ground (arith, form, named, valid, stored)

  -- A form whose last part is a file with a valid name is never answered exactly where the disk takes
  -- fewer pieces of the part than there are within the bound: the goroutine waits then in its write to
  -- the pipe, and the handler for the goroutine.
  pub upload_parts-hangs_iff :
      (malformed : Bool) (rs : List Uploaded) (created : ℕ)
      → text_eq run.part.form_name (codes "file") ≡ true
      → is_empty (trim_space run.part.file_name) ≡ false
      → is_empty (target_name root storage_text sniff keys max owner folder run.part) ≡ false
      → ((upload_parts root storage_text sniff keys max owner folder malformed
            (run ∷ [])
            rs
            created
            w).0
          ≡ none)
        ↔ ((n : ℕ) × (taken root run.faults.put temp run.faults.reads ≡ some n)
            × (n < length (pieces_within max 0 run.part.chunks)))
  upload_parts-hangs_iff malformed rs created form named valid =
      let (waits-if, if-waits) = last_part-waits malformed rs created in
      let same = upload_part-waits form named valid in
      let (few, short) =
        is_short_iff (taken root run.faults.put temp run.faults.reads)
          (length (pieces_within max 0 run.part.chunks)) in
      (λ e. few (sym same ∙ waits-if e), λ s. if-waits (same ∙ short s))
