-- ===== src/Stations/Package/Tests.antt =====
-- A release of the own server.
use g_manager.Common.{ℕ, true, false, none, some, List, [], ◌∷◌, ◌≡◌, refl, ◌++◌}
use g_manager.Stations.Package.{
  GamingClientPackage, Url, Web, configured, package_configuration, Answer, saved, zip_magic,
  download_client_package,
}
use g_manager.Stations.Package.Laws.{IsVerified, IsReceived, download_client_package_saves}

abbrev zeros : List ℕ
zeros =
    0 ∷ 0 ∷ 0 ∷ 0 ∷ 0 ∷ 0 ∷ 0 ∷ 0 ∷ 0 ∷ 0 ∷ 0 ∷ 0 ∷ 0 ∷ 0 ∷ 0 ∷ 0 ∷ 0 ∷ 0 ∷ 0 ∷ 0 ∷ 0 ∷ 0 ∷ 0 ∷ 0
    ∷ 0 ∷ 0 ∷ 0 ∷ 0 ∷ 0 ∷ 0 ∷ 0 ∷ 0 ∷ []

abbrev address : Url
address = record {
  href = "https://g.example/client.zip";
  origin = "https://g.example";
  protocol = "https:";
  username = "";
  password = "";
}

-- A digest that is always zero.
abbrev web : Web
web = record {
  parse_url = λ t. some address;
  own_origin = "https://g.example";
  to_upper_case = λ t. t;
  digest = λ bytes. zeros;
}

abbrev release : GamingClientPackage
release = record {
  status = " RELEASED";
  version = "1.20.3";
  sha256 = "0000000000000000000000000000000000000000000000000000000000000000";
  signing_subject = some "CN=G";
  download_url = "/client.zip";
}

abbrev archive : Answer
archive = record {
  status = 200;
  ok = true;
  content_type = some "Application/Zip; charset=binary";
  content_length = none;
  body = zip_magic ++ 7 ∷ [];
}

download : download_client_package web release true false (some archive) none ≡ saved archive.body
unfolding download_client_package
download = refl

download_client_package_saves_example :
    (url : Url) × (package_configuration web (some release) ≡ configured url)
    × IsVerified web release false archive.body
    × IsReceived web url (some archive) none archive.body
download_client_package_saves_example =
    download_client_package_saves web release true false (some archive) none archive.body download
