-- ===== src/Files.antt =====
-- The files that are downloaded and parsed (include/file-downloader.h, src/file-downloader.cpp).
use metro_network_monitor.Base.{Bytes, Bool, true, false, Option, none, some}
use metro_network_monitor.Json.{Json}

-- What the file system and libcurl answer.
pub record Files (json : Json) : Type 0 where
  pub exists : Bytes → Bool
  -- `temp_directory_path() / "network-layout.json"`
  pub layout_file : Bytes
  -- `curl_easy_init`, `fopen` for writing and `curl_easy_perform`, each with success or failure
  pub starts_curl : Bool
  pub opens : Bytes → Bool
  pub performs : Bytes → Bytes → Bytes → Bool
  -- what `file >> parsed` leaves of a file that exists, whether it throws or not
  pub json_in : Bytes → Option json.Value

module _ (json : Json) (files : Files json) where
  unfoldable pub download_file : Bytes → Bytes → Bytes → Bool
  download_file url destination ca_cert_file = elim files.starts_curl [
    | false ↦ false
    | true ↦ elim (files.opens destination) [
      | false ↦ false
      | true ↦ files.performs url destination ca_cert_file
    ]
  ]

  unfoldable pub parse_json_file : Bytes → json.Value
  parse_json_file source = elim (files.json_in source) [ none ↦ json.null | some v ↦ v ]
