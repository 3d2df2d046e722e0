-- ===== src/Web/Api/Args/Errors.antt =====
-- `_get_safe_args` of iib/web/api_v1.py raises no error of a refusal.
use iib.Common.{◌≡◌, false, List, [], ◌∷◌, arith}
use iib.Common.Dict.{Dict}
use iib.Exn.{Exn, Result, ok, err, ◌>>=◌}
use iib.Json.{Json}
use iib.Web.Session.Atomic.{is_refusal}
use iib.Web.Api.Args.{hide, hide_if_set, get_safe_args}

hide_error :
    (token : Json) (args : List Json) (e : Exn) → hide token args ≡ err e → is_refusal e ≡ false
unfolding hide
hide_error token [] e h = ground arith
hide_error token (a ∷ args) e h = ground (arith, hide_error token args e)

hide_if_set_error :
    (token : Json) (args : List Json) (e : Exn)
    → hide_if_set token args ≡ err e
    → is_refusal e ≡ false
unfolding hide_if_set
hide_if_set_error token args e h = ground (arith, hide_error token args e)

>>=_error :
    {A B : Type 0} (m : Result A) (f : A → Result B)
    → ((e : Exn) → m ≡ err e → is_refusal e ≡ false)
    → ((a : A) (e : Exn) → f a ≡ err e → is_refusal e ≡ false)
    → (e : Exn) → (m >>= f) ≡ err e
    → is_refusal e ≡ false
>>=_error (ok a) f km kf e h = kf a e h
>>=_error (err x) f km kf e h = km e (cc)

pub get_safe_args_error :
    (args : List Json) (payload : Dict Json) (e : Exn)
    → get_safe_args args payload ≡ err e
    → is_refusal e ≡ false
unfolding get_safe_args
get_safe_args_error args payload e h =
    >>=_error _ _ (hide_if_set_error _ args)
      (λ a.
        >>=_error _ _ (hide_if_set_error _ a)
          (λ b. >>=_error _ _ (hide_if_set_error _ b) (λ c. hide_if_set_error _ c)))
      e h
