-- ===== src/Worker/Messages.antt =====
-- src/queuefy/worker.py: `cut`, `storable`, `described`, `escaped` and `keepable`.
pub mod Writable
use queuefy.Prelude.{
  ℕ, ◌+◌, ◌-◌, ◌/◌, ◌%◌, ◌&&◌, List, [], ◌∷◌, ◌++◌, ltb, leb, ◌==◌, if◌then◌else◌, length, take,
}
use queuefy.Prelude.Text.{Text, codes}
use queuefy.Errors.{Result, ok, err, ◌>>=◌, ◌>>◌}
use queuefy.Value.{
  Value, null, boolean, int, float, text, list, tuple, dict, object, Float, Items, nil, cons,
  Entries, end, entry,
}
use queuefy.Store.Base.{error_limit, error_type_limit}
use queuefy.App.Payload.{exact, settled, put_entry}

unfoldable pub cut : Text → ℕ → Text
cut value limit = if leb (length value) limit then value else take (limit - 3) value ++ codes "..."

unfoldable pub hex : ℕ → ℕ
hex d = if ltb (d % 16) 10 then 48 + d % 16 else 87 + d % 16

-- A surrogate as `backslashreplace` writes it, a nul byte as its escape, all else as it is.
unfoldable pub storable_char : ℕ → Text
unfolding hex
storable_char c =
    if c == 0
    then 92 ∷ 120 ∷ 48 ∷ 48 ∷ []
    else (if leb 55296 c && leb c 57343
        then 92 ∷ 117 ∷ hex (c / 4096) ∷ hex (c / 256) ∷ hex (c / 16) ∷ hex c ∷ []
        else c ∷ [])

unfoldable pub storable : Text → Text
unfolding storable_char
storable [] = []
storable (c ∷ t) = storable_char c ++ storable t

-- What the failure says for itself, and the name of its class.
unfoldable pub described : Text → Text → Text × Text
unfolding cut storable
described spoken kind = (cut (storable spoken) error_limit, cut kind error_type_limit)

-- An entry that takes no text for its key: no other key of the dictionary equals it.
unfoldable pub append_entry : Value → Value → Entries → Entries
append_entry k v end = entry k v end
append_entry k v (entry j w entries) = entry j w (append_entry k v entries)

unfoldable pub put_escaped : Value → Value → Entries → Entries
unfolding put_entry append_entry
put_escaped (text k) v seen = put_entry k v seen
put_escaped k v seen = append_entry k v seen

unfoldable mutual
  unfolding storable put_escaped

  pub escaped : Value → Value
  escaped (text t) = text (storable t)
  escaped (dict entries) = dict (escaped_entries entries end)
  escaped (tuple items) = tuple (escaped_items items)
  escaped (list items) = list (escaped_items items)
  escaped v = v

  pub escaped_items : Items → Items
  escaped_items nil = nil
  escaped_items (cons v items) = cons (escaped v) (escaped_items items)

  pub escaped_entries : Entries → Entries → Entries
  escaped_entries end seen = seen
  escaped_entries (entry k v entries) seen =
      escaped_entries entries (put_escaped (escaped k) (escaped v) seen)

unfoldable pub keepable : (Float → Text) → Value → Result Value
unfolding exact settled escaped
keepable repr_float answer = exact answer >> settled repr_float (escaped answer)
