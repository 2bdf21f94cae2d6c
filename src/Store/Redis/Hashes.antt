-- ===== src/Store/Redis/Hashes.antt =====
-- src/queuefy/store/redis.py: `to_hash`, `to_run`, `stamp` and `moment_of`, the texts of a hash.
-- How Python and json print and read a value is not up to this code: it is a parameter, and what they
-- raise on a text that they did not print is left out, as is an instant before the first one.
use queuefy.Prelude.{ℕ, ◌≡◌, ◌≢◌, refl, ap, ◌∙◌, Option, none, some, [], ◌∷◌, arith}
use queuefy.Prelude.Int.{ℤ, pos, ◌+ℤ◌, ◌-ℤ◌, pos_part}
use queuefy.Prelude.Text.{Text}
use queuefy.Errors.{Result, ok, ◌>>=◌}
use queuefy.Value.{Value}
use queuefy.Clock.{epoch}
use queuefy.Run.{Run, Instant}
use queuefy.Store.Sql.Columns.{
  status_name, status_of, policy_name, policy_of, status_of-status_name, policy_of-policy_name,
}
use queuefy.Store.Redis.Places.{stamp, field, read_text, text_of, as_read}

-- `str` and `int` of a whole number and of a run's number, `str` and `float` of a delay, and json.
pub record Texts : Type 0 where
  pub str_id : Option ℕ → Text
  pub id_of : Text → Option ℕ
  pub str_int : ℤ → Text
  pub int_of : Text → ℤ
  pub str_float : Value → Text
  pub float_of : Text → Value
  pub dumps : Value → Text
  pub loads : Text → Value

pub record Hash : Type 0 where
  pub id : Text
  pub key : Text
  pub name : Text
  pub queue : Text
  pub payload : Text
  pub status : Text
  pub priority : Text
  pub due_at : Text
  pub attempts : Text
  pub max_attempts : Text
  pub timeout : Text
  pub retry_policy : Text
  pub retry_delay : Text
  pub max_retry_delay : Text
  pub worker : Text
  pub lease_until : Text
  pub created_at : Text
  pub started_at : Text
  pub finished_at : Text
  pub result : Text
  pub error : Text
  pub error_type : Text

-- The instant of so many whole microseconds since the epoch.
abbrev pub since_epoch : ℤ → Instant
since_epoch n = pos_part (pos epoch +ℤ n)

module _ (w : Texts) where
  abbrev pub print : {A : Type 0} → (A → Text) → Option A → Text
  print f none = []
  print f (some a) = f a

  abbrev pub parse : {A : Type 0} → (Text → A) → Text → Option A
  parse f [] = none
  parse f (c ∷ t) = some (f (c ∷ t))

  -- `stamp` as a text, which an absent instant leaves empty, and `moment_of`.
  abbrev pub stamped : Option Instant → Text
  stamped moment = print (λ m. w.str_int (stamp m)) moment

  abbrev pub moment_of : Text → Option Instant
  moment_of value = parse (λ t. since_epoch (w.int_of t)) value

  unfoldable pub to_hash : Run → Hash
  unfolding status_name policy_name stamp
  to_hash run = record {
    id = w.str_id run.id;
    key = text_of run.key;
    name = run.name;
    queue = run.queue;
    payload = w.dumps run.payload;
    status = status_name run.status;
    priority = w.str_int run.priority;
    due_at = stamped (some run.due_at);
    attempts = w.str_int run.attempts;
    max_attempts = w.str_int run.max_attempts;
    timeout = print w.str_float run.timeout;
    retry_policy = policy_name run.retry_policy;
    retry_delay = w.str_float run.retry_delay;
    max_retry_delay = w.str_float run.max_retry_delay;
    worker = text_of run.worker;
    lease_until = stamped run.lease_until;
    created_at = stamped (some run.created_at);
    started_at = stamped run.started_at;
    finished_at = stamped run.finished_at;
    result = print w.dumps run.result;
    error = text_of run.error;
    error_type = text_of run.error_type;
  }

  unfoldable pub to_run : Hash → Result Run
  unfolding status_of policy_of
  to_run stored = do
    status ← status_of stored.status
    retry_policy ← policy_of stored.retry_policy
    ok (record {
      id = w.id_of stored.id;
      key = field stored.key;
      name = stored.name;
      queue = stored.queue;
      payload = w.loads stored.payload;
      status = status;
      priority = w.int_of stored.priority;
      due_at = since_epoch (w.int_of stored.due_at);
      attempts = w.int_of stored.attempts;
      max_attempts = w.int_of stored.max_attempts;
      timeout = parse w.float_of stored.timeout;
      retry_policy = retry_policy;
      retry_delay = w.float_of stored.retry_delay;
      max_retry_delay = w.float_of stored.max_retry_delay;
      worker = field stored.worker;
      lease_until = moment_of stored.lease_until;
      created_at = since_epoch (w.int_of stored.created_at);
      started_at = moment_of stored.started_at;
      finished_at = moment_of stored.finished_at;
      result = parse w.loads stored.result;
      error = field stored.error;
      error_type = field stored.error_type;
    })

-- What is printed is no empty text and is read back.
abbrev pub ReadsBack : {A : Type 0} → (A → Text) → (Text → A) → A → Type 0
ReadsBack f g a = (f a ≢ []) × (g (f a) ≡ a)

abbrev pub ReadsBackIf : {A : Type 0} → (A → Text) → (Text → A) → Option A → Type 0
ReadsBackIf f g none = Unit
ReadsBackIf f g (some a) = ReadsBack f g a

-- Whole numbers are read back as they are printed, and so is every value that the run carries.
pub record IsPrinted (w : Texts) (run : Run) : Type 0 where
  pub ints : (n : ℤ) → ReadsBack w.str_int w.int_of n
  pub id : w.id_of (w.str_id run.id) ≡ run.id
  pub payload : w.loads (w.dumps run.payload) ≡ run.payload
  pub timeout : ReadsBackIf w.str_float w.float_of run.timeout
  pub retry_delay : w.float_of (w.str_float run.retry_delay) ≡ run.retry_delay
  pub max_retry_delay : w.float_of (w.str_float run.max_retry_delay) ≡ run.max_retry_delay
  pub result : ReadsBackIf w.dumps w.loads run.result

pub since_epoch-stamp : (m : Instant) → since_epoch (stamp m) ≡ m
unfolding stamp ◌+ℤ◌ ◌-ℤ◌
since_epoch-stamp m = ground arith

parse_text :
    {A : Type 0} (g : Text → A) (t : Text) (a : A) (w : Texts)
    → t ≢ []
    → g t ≡ a
    → parse w g t ≡ some a
parse_text g [] a w some_text reads = absurd (some_text refl)
parse_text g (c ∷ t) a w some_text reads = ap some reads

parse-print :
    {A : Type 0} (w : Texts) (f : A → Text) (g : Text → A) (o : Option A)
    → ReadsBackIf f g o
    → parse w g (print w f o) ≡ o
parse-print w f g none h = refl
parse-print w f g (some a) h = parse_text g (f a) a w h.0 h.1

field-text_of : (o : Option Text) → field (text_of o) ≡ read_text o
field-text_of none = refl
field-text_of (some t) = refl

module _ (w : Texts) (run : Run) (h : IsPrinted w run) where
  instant_back : (m : Instant) → since_epoch (w.int_of (w.str_int (stamp m))) ≡ m
  instant_back m = ap since_epoch (h.ints (stamp m)).1 ∙ since_epoch-stamp m

  moment_of-stamped : (o : Option Instant) → moment_of w (stamped w o) ≡ o
  moment_of-stamped none = refl
  moment_of-stamped (some m) =
      parse_text (λ t. since_epoch (w.int_of t)) (w.str_int (stamp m)) m w (h.ints (stamp m)).0
        (instant_back m)

  -- A run whose values are read back as they are printed is read from its hash field for field, its
  -- instants to the microsecond; only an empty text is read as nothing.
  pub to_run-to_hash : to_run w (to_hash w run) ≡ ok (as_read run)
  unfolding to_run to_hash
  to_run-to_hash =
      rw
        (
          status_of-status_name run.status,
          policy_of-policy_name run.retry_policy,
          h.id,
          h.payload,
          (h.ints run.priority).1,
          (h.ints run.attempts).1,
          (h.ints run.max_attempts).1,
          instant_back run.due_at,
          instant_back run.created_at,
          parse-print w w.str_float w.float_of run.timeout h.timeout,
          h.retry_delay,
          h.max_retry_delay,
          moment_of-stamped run.lease_until,
          moment_of-stamped run.started_at,
          moment_of-stamped run.finished_at,
          parse-print w w.dumps w.loads run.result h.result,
          field-text_of run.key,
          field-text_of run.worker,
          field-text_of run.error,
          field-text_of run.error_type,
        )
        refl
