-- ===== src/Update/Releases/Offered.antt =====
-- What is offered as an update.
use pwdtt.Prelude.{
  Bool, true, false, Bool-cases, Option-cases, Result-cases, List, [], ◌∷◌, Option, none, some,
  Result, ok, err, ◌≡◌, ◌⊎◌, inl, inr, refl, arith, if◌then◌else◌,
}
use pwdtt.Prelude.Text.{Text, ◌≗◌, trim_space}
use pwdtt.Update.{is_newer, is_comparable_version, trim_v}
use pwdtt.Update.Releases.{
  UpdateInfo, ReleaseAsset, GithubRelease, UrlLibrary, UpdateError, UpdateResult, Web, no_update,
  is_official_release_asset_url, select_release_asset, evaluate_release, release_asset_url,
  offer_asset, offer_version, offer_tag, asked_api, check_update_via_web, check_update,
  release_tag_from_url, known_release_asset_name,
}

-- An update that is offered is an official download of a newer version; without one there is no URL.
pub record IsFair (lib : UrlLibrary) (current : Text) (info : UpdateInfo) : Type 0 where
  comparable : is_comparable_version info.version ≡ true
  pub offered :
      (info.available ≡ false) × (info.url ≡ [])
      ⊎ (info.available ≡ true)
        × (is_official_release_asset_url lib info.url ≡ true)
        × (is_newer info.version current ≡ true)

abbrev FairResult : UrlLibrary → Text → UpdateResult → Type 0
FairResult lib current (ok info) = IsFair lib current info
FairResult lib current (err e) = Unit

module _ (lib : UrlLibrary) (goos goarch current : Text) where
  select_release_asset_official :
      (assets : List ReleaseAsset)
      → ((select_release_asset lib goos goarch assets ≗ []) ≡ true)
        ⊎ (is_official_release_asset_url lib (select_release_asset lib goos goarch assets) ≡ true)
  unfolding select_release_asset ◌≗◌
  select_release_asset_official [] = inl refl
  select_release_asset_official (a ∷ assets) = ground (arith, select_release_asset_official assets)

  evaluate_release_fair :
      (r : GithubRelease) → FairResult lib current (evaluate_release lib goos goarch current r)
  unfolding evaluate_release
  evaluate_release_fair r =
      let latest = trim_v (trim_space r.tag_name) in
      let url = select_release_asset lib goos goarch r.assets in
      elim (Bool-cases (is_comparable_version latest)) [
        | inr odd ↦ rw (odd, evaluate_release) tt
        | inl good ↦ elim (Bool-cases (is_newer latest current)) [
          | inr old ↦
              rw (good, evaluate_release, old)
                record { comparable = good; offered = inl (refl, refl) }
          | inl newer ↦ elim (Bool-cases (url ≗ [])) [
            | inl nothing ↦
                rw (good, evaluate_release, newer, nothing)
                  record { comparable = good; offered = inl (refl, refl) }
            | inr there ↦
                rw (good, evaluate_release, newer, there)
                  record {
                    comparable = good;
                    offered = inr (
                      refl,
                      ground (arith, select_release_asset_official r.assets, there),
                      newer,
                    );
                  }
          ]
        ]
      ]

  release_asset_url_official :
      (tag asset_name url : Text)
      → release_asset_url lib tag asset_name ≡ some url
      → is_official_release_asset_url lib url ≡ true
  unfolding release_asset_url
  release_asset_url_official tag asset_name url e = ground arith

  -- A newer version with its asset's URL, if that is official.
  found_fair :
      (latest url : Text) (found : Bool)
      → is_comparable_version latest ≡ true
      → is_newer latest current ≡ true
      → is_official_release_asset_url lib url ≡ true
      → FairResult lib current (
          if found
          then ok record { available = true; version = latest; url = url; body = [] }
          else ok (no_update latest))
  found_fair latest url true c n o = record { comparable = c; offered = inr (refl, o, n) }
  found_fair latest url false c n o = record { comparable = c; offered = inl (refl, refl) }

  offer_asset_fair :
      (latest : Text) (web : Web) (made : Option Text)
      → is_comparable_version latest ≡ true
      → is_newer latest current ≡ true
      → ((url : Text) → made ≡ some url → is_official_release_asset_url lib url ≡ true)
      → FairResult lib current (offer_asset latest web made)
  unfolding offer_asset
  offer_asset_fair latest web none c n o = tt
  offer_asset_fair latest web (some url) c n o = elim (Option-cases (web.exists url)) [
    | inl untold ↦ rw (untold, offer_asset) tt
    | inr (found, told) ↦ rw (told, offer_asset) (found_fair latest url found c n (o url refl))
  ]

  offer_version_fair :
      (latest asset_name : Text) (web : Web) (made : Option Text)
      → ((url : Text) → made ≡ some url → is_official_release_asset_url lib url ≡ true)
      → FairResult lib current (offer_version latest current asset_name web made)
  unfolding offer_version
  offer_version_fair latest asset_name web made official =
      elim (Bool-cases (is_comparable_version latest)) [
        | inr odd ↦ rw (odd, offer_version) tt
        | inl good ↦ elim (Bool-cases (is_newer latest current)) [
          | inr old ↦
              rw (good, offer_version, old) record { comparable = good; offered = inl (refl, refl) }
          | inl newer ↦ elim (Bool-cases (asset_name ≗ [])) [
            | inl unknown ↦
                rw (good, offer_version, newer, unknown)
                  record { comparable = good; offered = inl (refl, refl) }
            | inr known ↦
                rw (good, offer_version, newer, known)
                  (offer_asset_fair latest web made good newer official)
          ]
        ]
      ]

  offer_tag_fair :
      (web : Web) (tag : Text) → FairResult lib current (offer_tag lib goos goarch current web tag)
  unfolding offer_tag
  offer_tag_fair web tag =
      let asset_name = known_release_asset_name goos goarch in
      offer_version_fair (trim_v (trim_space tag)) asset_name web
        (release_asset_url lib tag asset_name) (release_asset_url_official tag asset_name)

  check_update_via_web_fair :
      (web : Web) → FairResult lib current (check_update_via_web lib goos goarch current web)
  unfolding check_update_via_web
  check_update_via_web_fair web = elim (Option-cases web.final_url) [
    | inl lost ↦ rw (lost, check_update_via_web) tt
    | inr (u, landed) ↦ elim (Option-cases (release_tag_from_url u)) [
      | inl odd ↦ rw (landed, check_update_via_web, odd) tt
      | inr (tag, named) ↦ rw (landed, check_update_via_web, named) (offer_tag_fair web tag)
    ]
  ]

  asked_api_fair :
      (api : Result UpdateError GithubRelease)
      → FairResult lib current (asked_api lib goos goarch current api)
  unfolding asked_api
  asked_api_fair (ok r) = evaluate_release_fair r
  asked_api_fair (err x) = tt

  -- Whatever GitHub answers to either way of asking, a check that gives a result names a version that
  -- can be compared, and offers it only if it is newer than the current one and only with an official
  -- download's URL; without an offer there is no URL.
  pub check_update-IsFair :
      (api : Result UpdateError GithubRelease) (web : Web) (info : UpdateInfo)
      → check_update lib goos goarch current api web ≡ ok info
      → IsFair lib current info
  unfolding check_update
  check_update-IsFair api web info e = elim (Result-cases (asked_api lib goos goarch current api)) [
    | inl (by_api, fine) ↦
        let same : by_api ≡ info = ground arith in rw same at (rw fine at (asked_api_fair api))
    | inr (x, failed) ↦ elim (Result-cases (check_update_via_web lib goos goarch current web)) [
      | inl (by_web, fine) ↦
          let same : by_web ≡ info = ground arith in
          rw same at (rw fine at (check_update_via_web_fair web))
      | inr (y, failed') ↦ absurd (ground arith)
    ]
  ]
