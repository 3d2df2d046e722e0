-- ===== src/Workers/Cache/Hit.antt =====
-- What the cache answers, and when it leaves the call as it is.
use iib.Common.{String, true, false, none, some, ◌≡◌, refl, sym, ap, ◌∙◌, arith}
use iib.Common.Dict.{get, put, get-put}
use iib.Exn.{Result, ok, err}
use iib.Json.{Json, truthy}
use iib.Workers.Exec.{Env, World, Exec, pure, continue, ◌>>◌}
use iib.Workers.Cache.{dogpile_cache, region_get, region_set, use_or_call}

-- A call that must not be cached is the function's own.
pub dogpile_cache-off :
    (env : Env) (key : String) (func : Exec Json) (w : World) (v : Json) (w' : World)
    → func w ≡ (ok v, w')
    → dogpile_cache env false key func w ≡ (ok v, w')
unfolding dogpile_cache
dogpile_cache-off env key func w v w' h = rw h refl

-- What a call that is not answered from the cache has put there.
stored :
    (key : String) (v : Json) (w' : World) (r : Result Json) (w : World)
    → continue r (λ output. region_set true key output >> pure output) w ≡ (ok v, w')
    → get key w'.cache ≡ some v
stored key v w' (err e) w h = cc
stored key v w' (ok output) w h =
    let same : output ≡ v = cc in
    let kept : w'.cache ≡ put key output w.cache = ap (λ p. p.1.cache) (sym h) in
    rw (kept, get-put, same) ground arith

-- A cached call that returns a true value is answered the same the next time, whatever the function
-- would do by then, without any event or change of state, as long as the backend keeps the entry.
pub dogpile_cache-again :
    (env : Env) (key : String) (func later : Exec Json) (w w' : World) (v : Json)
    → dogpile_cache env true key func w ≡ (ok v, w')
    → truthy v ≡ true
    → region_get env key w ≡ none
    → env.holds w'.events key ≡ true
    → dogpile_cache env true key later w' ≡ (ok v, w')
unfolding dogpile_cache
dogpile_cache-again env key func later w w' v h t m k =
    let missed : use_or_call true key func none w ≡ (ok v, w') =
      ap (λ o. use_or_call true key func o w) (sym m) ∙ h in
    let found = stored key v w' (func w).0 (func w).1 missed in
    let hit : region_get env key w' ≡ some v = rw (k, found, t) refl in
    ap (λ o. use_or_call true key later o w') hit
