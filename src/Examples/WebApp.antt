-- ===== src/Examples/WebApp.antt =====
-- packages/web-app/src: the theorems on blob responses and routes at concrete requests.
use slothfulchat_web.Prelude.{
  ◌≤◌, ◌≡◌, refl, ◌↔◌, true, Option, none, some, [], ◌∷◌, ◌++◌, Text, codes,
}
use slothfulchat_web.WebApp.BlobResponse.{
  parse_range, serve_range, base_headers, asked_range, blob_response_init,
}
use slothfulchat_web.WebApp.BlobResponse.Ranges.{
  wants, sends, declared, body_length, blob_response_init-exact,
}
use slothfulchat_web.WebApp.BlobResponse.Headers.{Secured, blob_response_init-Secured}
use slothfulchat_web.WebApp.DecodeUri.{decode_uri_component}
use slothfulchat_web.WebApp.BlobRoute.{
  traversal, safe_segment, BlobRoute, blob, resolve_blob, resolve_backup, resolve_by_path,
  resolve_blob_route,
}
use slothfulchat_web.WebApp.BlobRoute.Confined.{IsConfined, resolve_blob_route-IsConfined}
use slothfulchat_web.WebApp.SwCache.{cache_name, is_own_cache}
use slothfulchat_web.WebApp.SwCache.Ownership.{is_own_cache_iff}

abbrev video : Option Text
video = some (codes "video/mp4")

range_test : (blob_response_init 1000 video none (some (codes "bytes=-200"))).status ≡ 206
unfolding blob_response_init serve_range parse_range base_headers
range_test = refl

refused_test : (blob_response_init 0 video none (some (codes "bytes=0-"))).status ≡ 416
unfolding blob_response_init serve_range parse_range base_headers
refused_test = refl

blob_response_init-exact_example :
    let b = blob_response_init 1000 video none (some (codes "bytes=100-299")) in
    (sends b 299 ≡ wants 1000 (asked_range (some (codes "bytes=100-299"))) 299)
    × (b.end_excluded ≤ 1000)
    × (declared b.headers ≡ body_length b)
blob_response_init-exact_example =
    blob_response_init-exact 1000 video none (some (codes "bytes=100-299")) 299

blob_response_init-Secured_example :
    Secured (blob_response_init 1000 none (some (codes "a\"b")) none).headers
blob_response_init-Secured_example = blob_response_init-Secured 1000 none (some (codes "a\"b")) none

abbrev picture : Text
picture = codes "/app/blobs/ab/c%20d.jpg"

abbrev picture_route : BlobRoute
picture_route = blob (codes "ab") (codes "c d.jpg")

resolved_picture : resolve_blob_route picture ≡ some picture_route
unfolding resolve_blob_route resolve_blob resolve_backup resolve_by_path safe_segment traversal
    decode_uri_component
resolved_picture = refl

escape_test : resolve_blob_route (codes "/blobs/ab/%2e%2e%2fdc.db") ≡ none
unfolding resolve_blob_route resolve_blob resolve_backup resolve_by_path safe_segment traversal
    decode_uri_component
escape_test = refl

resolve_blob_route-IsConfined_example : IsConfined picture_route
resolve_blob_route-IsConfined_example =
    resolve_blob_route-IsConfined picture picture_route resolved_picture

is_own_cache_iff_example :
    (is_own_cache (cache_name (codes "/beta" ++ 47 ∷ []) (codes "dev")) (codes "" ++ 47 ∷ [])
      ≡ true)
    ↔ (codes "" ≡ codes "/beta")
is_own_cache_iff_example = is_own_cache_iff (codes "") (codes "/beta") (codes "dev") refl
