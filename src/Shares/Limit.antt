-- ===== src/Shares/Limit.antt =====
-- The download limit of a share: publicShareFileStream of backend/internal/http/shares.go, one request
-- after the other.
use personal_space.Prelude.{
  ℕ, suc, ◌+◌, ◌≤◌, ◌≡◌, refl, ◌⊎◌, inl, inr, true, false, Text, List, ◌∷◌, [], Option, some, find,
  update_where, if◌then◌else◌, ◌==◌, trim_space, arith, Result-cases, Option-cases, Bool-cases,
}
use personal_space.Database.Rows.{ShareRow}
use personal_space.Storage.Path.{CleanPath}
use personal_space.Server.World.{World, Response, serve}
use personal_space.Downloads.Stream.{Reply, source_of, send}
use personal_space.Downloads.Inline.{is_delivered, send-world, send-err, source_of-error}
use personal_space.Shares.Access.{Crypto, by_token, resolve_public_share}
use personal_space.Shares.Public.{
  PublicFaults, fetch_file_for_share, exhausted, public_share_file_stream, deliver,
}
use personal_space.Shares.Guarded.{resolve-IsOpen, resolve-db}

find-bump :
    (hash : Text) (id : ℕ) (rows : List ShareRow) (s : ShareRow)
    → find (by_token hash) rows ≡ some s
    → s.id ≡ id
    → find (by_token hash) (
        update_where
          (λ r. r.id == id)
          (λ r. record r { download_count = suc r.download_count })
          rows)
      ≡ some (record s { download_count = suc s.download_count })
find-bump hash id [] s h e = cc
find-bump hash id (r ∷ rows) s h e = ground (arith, find-bump hash id rows s)

-- The share that a token names.
abbrev pub share_at : Crypto → Text → World → Option ShareRow
share_at crypto token w = find (by_token (crypto.hash_token (trim_space token))) w.db.shares

-- A request for a download: the password, the file, and the header Range.
pub record Download : Type 0 where
  pub password : Text
  pub file : ℕ
  pub query : Text
  pub header : Text

module _ (root : CleanPath) (crypto : Crypto) (faults : PublicFaults) (now : ℕ) (token : Text) where
  abbrev pub answer : Download → World → Response Reply × World
  answer d w =
      serve
        (public_share_file_stream root crypto faults now false token d.password (some d.file)
          d.query d.header)
        w

  -- Whether a download is delivered, and one more is counted.
  download-counts :
      (d : Download) (w : World) (s : ShareRow)
      → faults.bump ≡ false
      → share_at crypto token w ≡ some s
      → ((is_delivered (answer d w).0.body ≡ true)
          × (exhausted s ≡ false)
          × (share_at crypto token (answer d w).1
              ≡ some (record s { download_count = suc s.download_count })))
        ⊎ ((is_delivered (answer d w).0.body ≡ false)
            × (share_at crypto token (answer d w).1 ≡ some s))
  unfolding public_share_file_stream deliver
  download-counts d w s sound named =
      elim (Result-cases
        (resolve_public_share crypto faults.access now token d.password true w).0) [
          | inr (e, denied) ↦
              inr (ground (arith, resolve-db crypto faults.access now token d.password w))
          | inl (t, resolved) ↦
              let (is_open, same) =
                resolve-IsOpen crypto faults.access now token d.password w t resolved in
              let counted =
                find-bump (crypto.hash_token (trim_space token)) s.id w.db.shares s named refl in
              elim (Option-cases (fetch_file_for_share t d.file w.db)) [
                | inl missing ↦ inr (ground (arith, same))
                | inr (rec, found) ↦
                    elim (Result-cases (source_of faults.gate true false d.query rec w.db)) [
                      | inr (r, e) ↦ inr (
                          ground (
                            arith,
                            same,
                            found,
                            source_of-error faults.gate true false d.query rec w.db r e,
                          ))
                      | inl (source, e) ↦
                          let world = send-world root faults.send source false d.header w in
                          elim (Bool-cases (exhausted s)) [
                            | inl full ↦ inr (ground (arith, same, found, is_open.named, named))
                            | inr free ↦
                                elim (Result-cases
                                  (send root faults.send source false d.header w).0) [
                                    | inr (r, failed) ↦ inr (
                                        ground (
                                          arith,
                                          same,
                                          found,
                                          is_open.named,
                                          named,
                                          world,
                                          send-err root faults.send source false d.header w r
                                              failed,
                                        ))
                                    | inl (r, sent) ↦
                                        (ground (
                                          arith, same, found, is_open.named, named, world, counted,
                                        ))
                                  ]
                          ]
                    ]
              ]
        ]

  -- The requests one after the other: how many are delivered, and the state after them.
  pub run_downloads : List Download → World → ℕ × World
  run_downloads [] w = (0, w)
  run_downloads (d ∷ ds) w =
      let (n, after) = run_downloads ds (answer d w).1 in
      ((if is_delivered (answer d w).0.body then suc n else n), after)

  -- However many downloads are asked for one after the other, those that are delivered are counted,
  -- and a share's limit is never passed, as long as the counting does not fail.
  pub run_downloads-limit :
      (ds : List Download) (w : World) (s : ShareRow) (max : ℕ)
      → faults.bump ≡ false
      → share_at crypto token w ≡ some s
      → s.max_downloads ≡ some max
      → s.download_count ≤ max
      → (s.download_count + (run_downloads ds w).0 ≤ max)
        × (share_at crypto token (run_downloads ds w).1
            ≡ some (record s { download_count = s.download_count + (run_downloads ds w).0 }))
  unfolding run_downloads
  run_downloads-limit [] w s max sound named bounded below = ground (arith, named)
  run_downloads-limit (d ∷ ds) w s max sound named bounded below =
      elim (download-counts d w s sound named) [
        | inl (sent, free, counted) ↦
            let rest =
              run_downloads-limit ds (answer d w).1
                (record s { download_count = suc s.download_count }) max sound counted bounded
                (ground (arith, bounded, free)) in
            ground (arith, rest, sent)
        | inr (refused, same) ↦
            let rest = run_downloads-limit ds (answer d w).1 s max sound same bounded below in
            ground (arith, rest, refused)
      ]
