-- ===== src/Agents/Wallctl/Caches.antt =====
-- The two caches of the wall controller: the layout that stays when the management API fails, and
-- the tokens that are used again.

use airgap_videowall.Prelude.{
  ℕ, ◌+◌, String, ◌≡◌, refl, sym, ap, ◌∙◌, subst, inl, inr, Bool, true, false, Option, none, some,
  arith, ltb, leb, if◌then◌else◌, Bool-cases, ◌==◌, string_eq, beq_self,
}
use airgap_videowall.Values.{
  pos, negsuc, Value, Fields, get_field, field, end, ℤ, obj, str, num, truthy, str_of, null, int_of,
  has_field,
}
use airgap_videowall.Agents.Http.{Reply, request_json, returned, failed, Returned}
use airgap_videowall.Agents.Wallctl.Settings.{Config, field_of, get_default}
use airgap_videowall.Agents.Wallctl.State.{Wall}
use airgap_videowall.Agents.Wallctl.Tokens.{
  Json, fetch_active_layout, put_field, call, called, keep_layout, cached_layout,
  request_subscribe_token, cached_token, ask_unless, ask_token, read_token, store_token, set_item,
  token_key, later, is_fresh,
}
use airgap_videowall.Agents.Wallctl.Dark.{Answers}

get_field-put : (k : String) (v : Value) (fs : Fields) → get_field (put_field k v fs) k ≡ v
unfolding get_field put_field
get_field-put k v end = rw (beq_self k) refl
get_field-put k v (field j w fs) = elim (Bool-cases (j == k)) [
  | inl e ↦ rw (e, get_field, e) refl
  | inr e ↦ rw (e, get_field, e) (get_field-put k v fs)
]

-- The instant `t` is before the end of a token.
abbrev pub lasts_past : ℤ → ℕ → Bool
lasts_past (pos e) t = ltb t e
lasts_past (negsuc n) t = false

is_fresh_lem : (exp : ℤ) (now : ℕ) → is_fresh exp now ≡ lasts_past exp (now + 30)
unfolding is_fresh
is_fresh_lem (pos e) now = refl
is_fresh_lem (negsuc n) now = refl

-- an answer with an error, or none
abbrev pub is_refused : Returned → Bool
is_refused (returned status body) = leb 400 status
is_refused failed = true

abbrev pub fallback : Value → Returned → Option Value
fallback layout (returned status body) = some layout
fallback layout failed = none

module _ (json : Json) (cfg : Config) where
  fetch-Answers :
      (replies : ℕ → Reply) (s : Wall) (layout : Value)
      → Answers replies layout
      → (fetch_active_layout json cfg replies s).0.layout_file ≡ some (json.dumps layout)
  unfolding fetch_active_layout call called keep_layout
  fetch-Answers replies s layout a = rw (fetch_active_layout, call, a.result, a.fine, a.full) refl

  fetch-refused :
      (replies : ℕ → Reply) (s : Wall) (status : ℕ) (layout body : Value)
      → (request_json replies 2).result ≡ returned status body
      → ltb status 400 ≡ false
      → s.layout_file ≡ some (json.dumps layout)
      → json.loads (json.dumps layout) ≡ some layout
      → (fetch_active_layout json cfg replies s).1 ≡ some layout
  unfolding fetch_active_layout call called keep_layout cached_layout
  fetch-refused replies s status layout body r e f back =
      rw (fetch_active_layout, call, r, e, f, cached_layout, back) refl

  fetch-fallback :
      (r : Returned) (replies : ℕ → Reply) (s : Wall) (layout : Value)
      → s.layout_file ≡ some (json.dumps layout)
      → json.loads (json.dumps layout) ≡ some layout
      → (request_json replies 2).result ≡ r
      → is_refused r ≡ true
      → (fetch_active_layout json cfg replies s).1 ≡ fallback layout r
  unfolding fetch_active_layout call called
  fetch-fallback failed replies s layout file back e h = rw (fetch_active_layout, call, e) refl
  fetch-fallback (returned status body) replies s layout file back e h =
      fetch-refused replies s status layout body e (ground arith) file back

  -- Once a layout was fetched, and its text in the file reads back, a later fetch, also by an agent
  -- that was started again, gives that layout if the management API answers with an error, and
  -- raises if the API cannot be reached in the last attempt: the cache is not used then.
  pub fetch_active_layout-falls_back :
      (replies replies' : ℕ → Reply) (s s' : Wall) (layout : Value)
      → Answers replies layout
      → json.loads (json.dumps layout) ≡ some layout
      → s'.layout_file ≡ (fetch_active_layout json cfg replies s).0.layout_file
      → is_refused (request_json replies' 2).result ≡ true
      → (fetch_active_layout json cfg replies' s').1
        ≡ fallback layout (request_json replies' 2).result
  fetch_active_layout-falls_back replies replies' s s' layout a back kept h =
      fetch-fallback (request_json replies' 2).result replies' s' layout
        (kept ∙ fetch-Answers replies s layout a) back refl h

  -- the entry that is stored for a token
  abbrev entry : String → ℤ → Value
  entry token exp = obj (field "token" (str token) (field "exp" (num exp) end))

  abbrev after_token : Wall → Fields → String → String → ℤ → Wall
  after_token s cache key token exp = record s {
    requests = s.requests + 1;
    token_cache = obj (put_field key (entry token exp) cache);
    token_file = some (json.dumps (obj (put_field key (entry token exp) cache)));
  }

  -- What a request for a token meets when none is cached and the management API gives one.
  pub record Grants (source_id tile_id : String) (now : ℕ) (replies : ℕ → Reply) (s : Wall)
      : Type 0 where
    pub cache : Fields
    pub is_cache : s.token_cache ≡ obj cache
    pub none_yet : get_field cache (token_key source_id tile_id) ≡ null
    pub status : ℕ
    pub body : Fields
    pub answered : (request_json replies 2).result ≡ returned status (obj body)
    pub fine : leb 400 status ≡ false
    pub token : String
    pub exp : ℤ
    pub has_token : get_field body "token" ≡ str token
    pub full : (token == "") ≡ false
    pub has_exp :
        int_of (get_default body "exp" (num (later now cfg.token_refresh_interval))) ≡ some exp

  module _ (source_id tile_id : String) (now : ℕ) (replies : ℕ → Reply) (s : Wall)
      (g : Grants source_id tile_id now replies s) where
    abbrev granted : Wall
    granted = after_token s g.cache (token_key source_id tile_id) g.token g.exp

    store-granted :
        store_token json
          (token_key source_id tile_id)
          (get_field g.body "token")
          g.exp
          (record s { requests = s.requests + 1 })
        ≡ (granted, some (some g.token))
    unfolding store_token set_item str_of truthy
    store-granted =
        let s' = record s { requests = s.requests + 1 } in
        let stored : store_token json (token_key source_id tile_id) (str g.token) g.exp s'
            ≡ (granted, some (some g.token)) =
          rw (store_token, g.full, g.is_cache) refl in
        subst
          (λ v.
            store_token json (token_key source_id tile_id) v g.exp s'
            ≡ (granted, some (some g.token)))
          (sym g.has_token) stored

    read-granted :
        read_token json cfg
          (token_key source_id tile_id)
          now
          (obj g.body)
          (record s { requests = s.requests + 1 })
        ≡ (granted, some (some g.token))
    unfolding read_token
    read-granted = rw (read_token, g.has_exp) store-granted

    ask-granted :
        ask_token json cfg (token_key source_id tile_id) now replies s
        ≡ (granted, some (some g.token))
    unfolding ask_token call called
    ask-granted = rw (ask_token, call, g.answered, called, g.fine) read-granted

    request-granted :
        request_subscribe_token json cfg source_id tile_id now replies s
        ≡ (granted, some (some g.token))
    unfolding request_subscribe_token field_of cached_token ask_unless truthy
    request-granted =
        let read : field_of s.token_cache (token_key source_id tile_id) ≡ some null =
          rw (g.is_cache, field_of, g.none_yet) refl in
        rw (request_subscribe_token, read, cached_token) ask-granted

  request-cached :
      (source_id tile_id token : String) (cache : Fields) (exp : ℤ) (now : ℕ) (replies : ℕ → Reply)
      (s : Wall)
      → s.token_cache ≡ obj cache
      → get_field cache (token_key source_id tile_id) ≡ entry token exp
      → (is_fresh exp now ≡ true
          → request_subscribe_token json cfg source_id tile_id now replies s
            ≡ (s, some (some token)))
        × (is_fresh exp now ≡ false
            → request_subscribe_token json cfg source_id tile_id now replies s
              ≡ ask_token json cfg (token_key source_id tile_id) now replies s)
  unfolding request_subscribe_token field_of cached_token ask_unless truthy get_default has_field
      get_field int_of str_of
  request-cached source_id tile_id token cache exp now replies s c e =
      let read : field_of s.token_cache (token_key source_id tile_id) ≡ some (entry token exp) =
        rw (c, field_of, e) refl in
      (
        λ fresh. rw (request_subscribe_token, read, cached_token, fresh) refl,
        λ stale. rw (request_subscribe_token, read, cached_token, stale) refl,
      )

  -- A token that the management API gave, when none was cached, is stored: a later request for the
  -- same source and tile gets it without a request to the API while more than thirty seconds are
  -- left of it, and else asks the API again.
  pub request_subscribe_token-reuses :
      (source_id tile_id : String) (now now' : ℕ) (replies replies' : ℕ → Reply) (s s' : Wall)
      (g : Grants source_id tile_id now replies s)
      → s' ≡ (request_subscribe_token json cfg source_id tile_id now replies s).0
      → ((request_subscribe_token json cfg source_id tile_id now replies s).1 ≡ some (some g.token))
        × (request_subscribe_token json cfg source_id tile_id now' replies' s' ≡ (
            if lasts_past g.exp (now' + 30)
            then (s', some (some g.token))
            else ask_token json cfg (token_key source_id tile_id) now' replies' s'))
  request_subscribe_token-reuses source_id tile_id now now' replies replies' s s' g e =
      let first = request-granted source_id tile_id now replies s g in
      let key = token_key source_id tile_id in
      let at : s' ≡ after_token s g.cache key g.token g.exp = e ∙ ap (λ r. r.0) first in
      let (fresh, stale) =
        request-cached source_id tile_id g.token (put_field key (entry g.token g.exp) g.cache) g.exp
          now' replies' s' (ap (λ (w : Wall). w.token_cache) at)
          (get_field-put key (entry g.token g.exp) g.cache) in
      (
        ap (λ r. r.1) first,
        elim (Bool-cases (is_fresh g.exp now')) [
          | inl f ↦ rw (← is_fresh_lem g.exp now', f) (fresh f)
          | inr f ↦ rw (← is_fresh_lem g.exp now', f) (stale f)
        ],
      )
