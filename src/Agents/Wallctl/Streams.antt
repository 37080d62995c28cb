-- ===== src/Agents/Wallctl/Streams.antt =====
-- agents/wallctl/vw_wallctl.py: the `dict(… or {})` of a tile's stream, of which only keys that are
-- texts are looked up.
use airgap_videowall.Prelude.{String, Option, none, some}
use airgap_videowall.Values.{Value, Items, Fields, str, list, obj, nil, cons, end, field}
use airgap_videowall.Agents.Wallctl.Settings.{mapping_of}
use airgap_videowall.Agents.Wallctl.Tokens.{put_field}

-- An item that has two elements: a list, a text, or a mapping, of which the keys count.
unfoldable pub pair_of : Value → Option (Value × Value)
pair_of (list (cons k (cons v nil))) = some (k, v)
pair_of (str (String.◌∷◌ c (String.◌∷◌ d String.[]))) =
    some (str (String.◌∷◌ c String.[]), str (String.◌∷◌ d String.[]))
pair_of (obj (field k _ (field j _ end))) = some (str k, str j)
pair_of _ = none

-- A key has to have a hash. One that is no text is left out, since it is never looked up.
unfoldable pub put_key : Value → Value → Fields → Option Fields
unfolding put_field
put_key (str k) v fs = some (put_field k v fs)
put_key (list _) v fs = none
put_key (obj _) v fs = none
put_key _ v fs = some fs

unfoldable pub put_pair : Option (Value × Value) → Fields → Option Fields
unfolding put_key
put_pair none fs = none
put_pair (some (k, v)) fs = put_key k v fs

unfoldable pub dict_from : Items → Fields → Option Fields
unfolding pair_of put_pair
dict_from nil fs = some fs
dict_from (cons v vs) fs = elim (put_pair (pair_of v) fs) [
  | none ↦ none
  | some more ↦ dict_from vs more
]

-- `dict(v or {})`: a list may be one of pairs
unfoldable pub dict_of_stream : Value → Option Fields
unfolding dict_from mapping_of
dict_of_stream (list vs) = dict_from vs end
dict_of_stream v = mapping_of v
