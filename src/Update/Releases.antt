-- ===== src/Update/Releases.antt =====
-- backend/update.go: which release is offered as an update. What GitHub answers is an argument, and
-- url.Parse and url.PathEscape are parameters.
pub mod Offered
use pwdtt.Prelude.{
  Bool, true, false, not, ◌&&◌, ◌||◌, List, [], ◌∷◌, ◌++◌, Option, none, some, Result, ok, err, map,
  drop, ◌==◌, if◌then◌else◌,
}
use pwdtt.Prelude.Text.{Text, codes, ◌≗◌, has_prefix, trim_space, to_lower, any_char}
use pwdtt.Session.{contains, contains_any}
use pwdtt.Update.{is_newer, is_comparable_version, trim_v}

pub record UpdateInfo : Type 0 where
  pub available : Bool
  pub version : Text
  pub url : Text
  pub body : Text

pub record ReleaseAsset : Type 0 where
  pub browser_download_url : Text
  pub name : Text

pub record GithubRelease : Type 0 where
  pub tag_name : Text
  pub body : Text
  pub assets : List ReleaseAsset

-- The parts of a parsed URL that are read.
pub record UrlParts : Type 0 where
  pub scheme : Text
  pub host : Text
  pub hostname : Text
  pub path : Text
  pub escaped_path : Text

-- net/url
pub record UrlLibrary : Type 0 where
  pub parse : Text → Option UrlParts
  pub path_escape : Text → Text

pub data UpdateError : Type 0 where
  request_fails bad_status too_large bad_json bad_tag untrusted bad_asset not_comparable both_fail :
      UpdateError

abbrev pub UpdateResult : Type 0
UpdateResult = Result UpdateError UpdateInfo

abbrev lowered : Text → Text
lowered s = map to_lower s

-- strings.EqualFold with a text of lower-case ASCII letters.
abbrev folds_to : Text → Text → Bool
folds_to s low = lowered s ≗ low

unfoldable pub is_official_release_asset_url : UrlLibrary → Text → Bool
is_official_release_asset_url lib raw = elim (lib.parse raw) [
  | none ↦ false
  | some u ↦
      folds_to u.scheme (codes "https")
      && folds_to u.host (codes "github.com")
      && has_prefix (codes "/regstar2/pwdtt/releases/download/") (lowered u.escaped_path)
]

abbrev x64_names : List Text
x64_names = codes "amd64" ∷ codes "x86_64" ∷ codes "x64" ∷ []

abbrev nonempty_only : List Text → List Text
nonempty_only [] = []
nonempty_only (t ∷ ts) = let rest = nonempty_only ts in if t ≗ [] then rest else t ∷ rest

unfoldable arch_aliases : Text → List Text
arch_aliases arch =
    if arch ≗ codes "amd64"
    then x64_names
    else if arch ≗ codes "arm64"
    then codes "arm64" ∷ codes "aarch64" ∷ []
    else nonempty_only (arch ∷ [])

unfoldable fits_darwin : Text → Text → Bool
unfolding contains contains_any arch_aliases
fits_darwin goarch name =
    (goarch ≗ codes "amd64" || goarch ≗ codes "arm64")
    && (name ≗ codes "pwdtt-macos.zip"
        || contains_any name (codes "darwin" ∷ codes "macos" ∷ codes "mac" ∷ [])
          && (contains name (codes "universal") || contains_any name (arch_aliases goarch)))

-- An asset's name, trimmed and in lower case, is one for the platform.
unfoldable fits_platform : Text → Text → Text → Bool
unfolding fits_darwin contains contains_any
fits_platform goos goarch name =
    if goos ≗ codes "windows"
    then goarch ≗ codes "amd64" && contains name (codes "windows") && contains_any name x64_names
    else if goos ≗ codes "linux"
    then goarch ≗ codes "amd64" && contains name (codes "linux") && contains_any name x64_names
    else if goos ≗ codes "darwin"
    then fits_darwin goarch name
    else false

-- The first official asset for the platform.
unfoldable pub select_release_asset : UrlLibrary → Text → Text → List ReleaseAsset → Text
unfolding is_official_release_asset_url fits_platform
select_release_asset lib goos goarch [] = []
select_release_asset lib goos goarch (a ∷ assets) =
    let later = select_release_asset lib goos goarch assets in
    if is_official_release_asset_url lib a.browser_download_url
      && fits_platform goos goarch (lowered (trim_space a.name))
    then a.browser_download_url
    else later

abbrev pub no_update : Text → UpdateInfo
no_update latest = record { available = false; version = latest; url = []; body = [] }

unfoldable pub evaluate_release : UrlLibrary → Text → Text → Text → GithubRelease → UpdateResult
unfolding select_release_asset trim_v
evaluate_release lib goos goarch current r =
    let latest = trim_v (trim_space r.tag_name) in
    let url = select_release_asset lib goos goarch r.assets in
    if not (is_comparable_version latest)
    then err bad_tag
    else if not (is_newer latest current)
    then ok (no_update latest)
    else if url ≗ []
    then ok (no_update latest)
    else ok record { available = true; version = latest; url = url; body = r.body }

abbrev release_prefix : Text
release_prefix = codes "/regstar2/pwdtt/releases/tag/"

unfoldable pub release_tag_from_url : UrlParts → Option Text
release_tag_from_url u =
    let tag = trim_space (drop 29 u.path) in
    if not (folds_to u.scheme (codes "https") && folds_to u.hostname (codes "github.com"))
    then none
    else if not (has_prefix release_prefix (lowered u.path))
    then none
    else if tag ≗ [] || any_char (λ c. c == b'/') tag
    then none
    else some tag

unfoldable pub known_release_asset_name : Text → Text → Text
known_release_asset_name goos goarch =
    if goos ≗ codes "windows" && goarch ≗ codes "amd64"
    then codes "pwdtt-windows-amd64.exe"
    else if goos ≗ codes "linux" && goarch ≗ codes "amd64"
    then codes "pwdtt-linux-amd64"
    else if goos ≗ codes "darwin" && (goarch ≗ codes "amd64" || goarch ≗ codes "arm64")
    then codes "PWDTT-macos.zip"
    else []

unfoldable pub release_asset_url : UrlLibrary → Text → Text → Option Text
unfolding is_official_release_asset_url trim_v
release_asset_url lib tag asset_name =
    let latest = trim_v (trim_space tag) in
    let url =
      codes "https://github.com/Regstar2/PWDTT/releases/download/"
      ++ lib.path_escape tag
      ++ codes "/"
      ++ lib.path_escape asset_name in
    if not (is_comparable_version latest)
    then none
    else if trim_space asset_name ≗ [] || any_char (λ c. c == b'/' || c == 92) asset_name
    then none
    else if not (is_official_release_asset_url lib url)
    then none
    else some url

-- What the release page and the request for an asset's head give: the URL in the end, if the page
-- is there, and for each URL whether the asset exists, if that can be told.
pub record Web : Type 0 where
  pub final_url : Option UrlParts
  pub exists : Text → Option Bool

-- With the asset's URL, if one is made: the asset may be missing.
unfoldable pub offer_asset : Text → Web → Option Text → UpdateResult
offer_asset latest web none = err bad_asset
offer_asset latest web (some url) = elim (web.exists url) [
  | none ↦ err bad_status
  | some found ↦
      if found
      then ok record { available = true; version = latest; url = url; body = [] }
      else ok (no_update latest)
]

-- With the latest version, the asset's name, and the URL that is made of them.
unfoldable pub offer_version : Text → Text → Text → Web → Option Text → UpdateResult
unfolding offer_asset
offer_version latest current asset_name web made =
    if not (is_comparable_version latest)
    then err bad_tag
    else if not (is_newer latest current)
    then ok (no_update latest)
    else if asset_name ≗ []
    then ok (no_update latest)
    else offer_asset latest web made

-- With the latest tag.
unfoldable pub offer_tag : UrlLibrary → Text → Text → Text → Web → Text → UpdateResult
unfolding known_release_asset_name release_asset_url offer_version trim_v
offer_tag lib goos goarch current web tag =
    let asset_name = known_release_asset_name goos goarch in
    offer_version (trim_v (trim_space tag)) current asset_name web
      (release_asset_url lib tag asset_name)

unfoldable pub check_update_via_web : UrlLibrary → Text → Text → Text → Web → UpdateResult
unfolding release_tag_from_url offer_tag
check_update_via_web lib goos goarch current web = elim web.final_url [
  | none ↦ err request_fails
  | some u ↦ elim (release_tag_from_url u) [
    | none ↦ err untrusted
    | some tag ↦ offer_tag lib goos goarch current web tag
  ]
]

unfoldable pub asked_api :
    UrlLibrary → Text → Text → Text → Result UpdateError GithubRelease → UpdateResult
unfolding evaluate_release
asked_api lib goos goarch current (err e) = err e
asked_api lib goos goarch current (ok r) = evaluate_release lib goos goarch current r

-- The API's release, or its error, and then the web.
unfoldable pub check_update :
    UrlLibrary → Text → Text → Text → Result UpdateError GithubRelease → Web → UpdateResult
unfolding asked_api check_update_via_web
check_update lib goos goarch current api web =
    let via_web = check_update_via_web lib goos goarch current web in
    if not (is_comparable_version current)
    then err not_comparable
    else elim (asked_api lib goos goarch current api) [
      | ok info ↦ ok info
      | err e ↦ elim via_web [ ok info ↦ ok info | err e' ↦ err both_fail ]
    ]
