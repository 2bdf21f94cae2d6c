-- ===== src/App/Payload.antt =====
-- src/queuefy/app.py: `exact` and `as_written`, the arguments of a run as every store reads them back.
-- `json.dumps` and `json.loads` are taken together: what comes back is the same value with every
-- tuple a list and every key a text. How Python writes a float down is a parameter, and a value here
-- holds no cycle and no depth that Python's stack does not hold.
use queuefy.Prelude.{
  ℕ, zero, suc, ◌+◌, ◌/◌, ◌%◌, ◌^◌, Bool, true, false, not, ◌&&◌, [], ◌∷◌, ltb, leb, if◌then◌else◌,
  all,
}
use queuefy.Prelude.Int.{ℤ, pos, negsuc, pos_part, neg_part, leb_ℤ}
use queuefy.Prelude.Text.{Text, codes, ◌==◌ as text_eq}
use queuefy.Errors.{Result, ok, err, ◌>>=◌, ◌>>◌, raise_if, queue_error}
use queuefy.Value.{
  Value, null, boolean, int, float, text, list, tuple, dict, object, Float, ratio, Items, nil, cons,
  Entries, end, entry,
}
use queuefy.Store.Base.{whole_floor, whole_ceiling}

-- What UTF-8 encodes: everything but a surrogate.
unfoldable pub encodable : Text → Bool
encodable t = all (λ c. not (leb 55296 c && leb c 57343)) t

unfoldable mutual
  pub exact : Value → Result (Unit {0})
  exact (int n) = raise_if (not (leb_ℤ whole_floor n && leb_ℤ n whole_ceiling)) queue_error
  exact (list items) = exact_items items
  exact (tuple items) = exact_items items
  exact (dict entries) = exact_entries entries
  exact _ = ok tt

  pub exact_items : Items → Result (Unit {0})
  exact_items nil = ok tt
  exact_items (cons v items) = exact v >> exact_items items

  pub exact_entries : Entries → Result (Unit {0})
  exact_entries end = ok tt
  exact_entries (entry k v entries) = exact v >> exact_entries entries

-- The decimal digits of a number, on fuel: a number has no more digits than itself plus one.
unfoldable digits_of : ℕ → ℕ → Text → Text
digits_of zero n seen = seen
digits_of (suc fuel) n seen =
    let more = digits_of fuel (n / 10) ((48 + n % 10) ∷ seen) in
    if ltb n 10 then (48 + n) ∷ seen else more

abbrev digit_limit : ℕ
digit_limit = 4300

unfoldable pub decimal : ℤ → Text
unfolding digits_of
decimal (pos n) = digits_of digit_limit n []
decimal (negsuc n) = 45 ∷ digits_of digit_limit (suc n) []

-- An entry of a dictionary: a key that is there keeps its place, and takes the new value.
unfoldable pub put_entry : Text → Value → Entries → Entries
put_entry k v end = entry (text k) v end
put_entry k v (entry (text j) w entries) =
    let rest = put_entry k v entries in
    if text_eq j k then entry (text j) v entries else entry (text j) w rest
put_entry k v (entry j w entries) = entry j w (put_entry k v entries)

module _ (repr_float : Float → Text) where
  unfoldable pub key_text : Value → Result Text
  unfolding decimal
  key_text (text t) = if encodable t then ok t else err queue_error
  key_text (boolean true) = ok (codes "true")
  key_text (boolean false) = ok (codes "false")
  key_text null = ok (codes "null")
  key_text (int n) =
      if leb (10 ^ digit_limit) (pos_part n + neg_part n) then err queue_error else ok (decimal n)
  key_text (float (ratio n d)) = ok (repr_float (ratio n d))
  key_text _ = err queue_error

  unfoldable mutual
    unfolding key_text put_entry encodable

    pub settled : Value → Result Value
    settled null = ok null
    settled (boolean b) = ok (boolean b)
    settled (int n) = ok (int n)
    settled (float (ratio n d)) = ok (float (ratio n d))
    settled (float x) = err queue_error
    settled (text t) = if encodable t then ok (text t) else err queue_error
    settled (list items) = settled_items items >>= λ items'. ok (list items')
    settled (tuple items) = settled_items items >>= λ items'. ok (list items')
    settled (dict entries) = settled_entries entries end >>= λ entries'. ok (dict entries')
    settled (object n) = err queue_error

    pub settled_items : Items → Result Items
    settled_items nil = ok nil
    settled_items (cons v items) =
        settled v >>= λ v'. settled_items items >>= λ items'. ok (cons v' items')

    -- The entries read so far, and those that are left.
    pub settled_entries : Entries → Entries → Result Entries
    settled_entries end seen = ok seen
    settled_entries (entry k v entries) seen =
        key_text k >>= λ k'. settled v >>= λ v'. settled_entries entries (put_entry k' v' seen)

  unfoldable pub as_written : Value → Result Value
  unfolding exact settled
  as_written (dict entries) = exact (dict entries) >> settled (dict entries)
  as_written _ = err queue_error
