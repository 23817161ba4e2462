-- ===== src/Tests/DownloadRuns.antt =====
-- Downloads at work.
use personal_space.Prelude.{
  ℕ, ◌≡◌, refl, true, false, List, [], ◌∷◌, codes, none, some, ok, trim_space, trim_left, is_space,
  is_empty, text_eq, text_eq_refl, has_prefix, contains_code, arith, length, pos, find,
}
use personal_space.Database.Rows.{FileRow}
use personal_space.Storage.Files.{no_faults, put, stat, get_stream, get_range_stream}
use personal_space.Server.Numbers.{parse_int64}
use personal_space.Server.World.{World, serve}
use personal_space.Downloads.Range.{split_dash, parse_single_range}
use personal_space.Downloads.Stream.{
  Delivery, Source, GateFaults, SendFaults, delivered, owned_file, fetch_owned_file, source_of,
  send, stream_owned_file,
}
use personal_space.Downloads.Inline.{is_delivered, IsSent, stream_owned_file-delivered, send-IsSent}
use personal_space.Tests.Samples.{root, temp, temp_key, temp_path, database, no_files}

abbrev page : FileRow
page = record {
  id = 3;
  owner = 1;
  folder = none;
  name = codes "a";
  original_name = codes "a";
  storage_key = temp_key;
  size = 2;
  mime = some (codes "text/html");
  extension = none;
  updated_at = 500;
  deleted_at = none;
}

abbrev site : FileRow → World
site rec = record {
  db = record (database []) { files = rec ∷ [] };
  disk = put temp (7 ∷ 8 ∷ 9 ∷ []) no_files;
  audit = [];
  uploaded_total = 0;
}

abbrev gate_calm : GateFaults
gate_calm = record { settings = false; variant = false }

abbrev send_calm : SendFaults
send_calm = record { stat = no_faults; read = no_faults }

page_delivered :
    is_delivered
      (serve
        (stream_owned_file root send_calm false gate_calm false (some 1) (some 3) [] [])
        (site page)).0.body
    ≡ true
unfolding stream_owned_file fetch_owned_file send stat get_stream trim_space trim_left is_empty
page_delivered = ground (arith, temp_path, text_eq_refl temp)

stream_owned_file-delivered_example :
    (rec : FileRow) × (find (owned_file 3 1) (site page).db.files ≡ some rec)
    × (source : Source) × (source_of gate_calm false false [] rec (site page).db ≡ ok source)
    × (serve
          (stream_owned_file root send_calm false gate_calm false (some 1) (some 3) [] [])
          (site page)
        ≡ ((serve (send root send_calm source false []) (site page)).0, site page))
stream_owned_file-delivered_example =
    stream_owned_file-delivered root send_calm false gate_calm false 1 3 [] [] (site page)
      page_delivered

abbrev source : Source
source = record { key = temp_key; mime = codes "text/html" }

abbrev content : List ℕ
content = 7 ∷ 8 ∷ 9 ∷ []

abbrev part : Delivery
part = record {
  content_type = codes "text/html";
  inline = false;
  sandbox = false;
  size = 3;
  range = some (record { start = 1; end = pos 2 });
  bytes = 8 ∷ 9 ∷ [];
}

held_here : (site page).disk temp ≡ some (7 ∷ 8 ∷ 9 ∷ [])
unfolding text_eq
held_here = refl

part_sent :
    (serve (send root send_calm source false (codes "bytes=1-")) (site page)).0.body
    ≡ delivered part
unfolding send stat get_range_stream parse_single_range split_dash parse_int64 trim_space trim_left
    is_space is_empty has_prefix contains_code
part_sent = ground (arith, temp_path, held_here)

send-IsSent_example :
    IsSent
      (codes "bytes=1-")
      content
      (serve (send root send_calm source false (codes "bytes=1-")) (site page)).0.code
      part
    × (3 ≡ length content)
    × (part.content_type ≡ source.mime)
    × (part.sandbox ≡ false)
send-IsSent_example =
    send-IsSent root send_calm source false (codes "bytes=1-") (site page) temp (7 ∷ 8 ∷ 9 ∷ [])
      part temp_path held_here part_sent
