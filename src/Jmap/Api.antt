-- ===== src/Jmap/Api.antt =====
-- services/collector-jmap/jmap_client.go: a call of the JMAP API and what is read of its answers.
use ice_hive.Prelude.{
  ◌++◌, ℕ, ◌||◌, List, [], ◌∷◌, Option, none, some, ltb, leb, if◌then◌else◌, Result, ok, err, ◌>>=◌,
  length, take, map,
}
use ice_hive.Prelude.Int.{ℤ, pos}
use ice_hive.Text.{Bytes, codes, is_nil, str_eq, trim_space}
use ice_hive.Dict.{Dict, insert}

-- inboxEmailThreadLimit
abbrev pub inbox_email_thread_limit : ℕ
inbox_email_thread_limit = 10

-- The method calls that are made, with the account and what else their arguments vary in.
pub data Call : Type 0 where
  mailbox_query : Bytes → Call
  email_query : Bytes → Bytes → ℕ → Call
  email_get thread_get : Bytes → List Bytes → Call

-- A row of Email/get, with the members that are texts.
pub record Row : Type 0 where
  pub thread_id : Option Bytes
  pub subject : Option Bytes
  pub preview : Option Bytes
  pub received_at : Option Bytes

pub record ParsedEmail : Type 0 where
  pub thread_id : Bytes
  pub subject : Bytes
  pub preview : Bytes
  pub received_unix_ms : ℤ

-- net/http, encoding/json, time and x/text. `post` sends a call to the URL with the token, and gives
-- the status and the body, or the text of the error; `decode_` functions are json.Unmarshal.
pub record Library : Type 1 where
  pub World : Type 0
  pub Raw : Type 0
  pub post : World → Bytes → Bytes → Call → World × Result Bytes (ℕ × Bytes)
  pub decode_envelope : Bytes → Result Bytes (List Raw)
  pub decode_tuple : Raw → Result Bytes (List Raw)
  pub decode_string : Raw → Result Bytes Bytes
  pub decode_ids : Raw → Result Bytes (List Bytes)
  pub decode_query : Raw → Result Bytes (List Bytes)
  pub decode_emails : Raw → Result Bytes (List Row)
  pub decode_threads : Raw → Result Bytes (List (Bytes × List Bytes))
  pub raw_text : Raw → Bytes
  -- time.Parse by a layout, in milliseconds
  pub parse_time : Bytes → Bytes → Option ℤ
  pub nfc : Bytes → Bytes

pub data ApiError : Type 0 where
  failed : Bytes → ApiError
  bad_status : Bytes → ℕ → Bytes → ApiError
  bad_json bad_tuple bad_args method_error : Bytes → ApiError
  short_response empty_responses no_inbox : ApiError
  -- an index out of range, at which the program panics
  panicked : ApiError

-- truncateBytes; what is cut off is an ellipsis, in UTF-8
unfoldable pub truncate_bytes : Bytes → ℕ → Bytes
truncate_bytes b max = if leb (length b) max then b else take max b ++ (0xe2 ∷ 0x80 ∷ 0xa6 ∷ [])

pub record JmapRuntime : Type 0 where
  pub api_url : Bytes
  pub account_id : Bytes
  pub bearer : Bytes

module _ (l : Library) where
  open l use {World, Raw}

  -- The first two members of an element of methodResponses.
  pub record Response : Type 0 where
    pub name : Raw
    pub args : Raw

  to_response : List Raw → Result ApiError Response
  to_response [] = err short_response
  to_response (r ∷ []) = err short_response
  to_response (name ∷ args ∷ rest) = ok (record { name = name; args = args })

  read_tuple : Result Bytes (List Raw) → Result ApiError Response
  unfolding to_response
  read_tuple (err e) = err (bad_tuple e)
  read_tuple (ok rs) = to_response rs

  unfoldable pub read_tuples : List Raw → Result ApiError (List Response)
  unfolding read_tuple
  read_tuples [] = ok []
  read_tuples (r ∷ rs) =
      let rest = read_tuples rs in
      read_tuple (l.decode_tuple r) >>= λ response. rest >>= λ responses. ok (response ∷ responses)

  read_envelope : Result Bytes (List Raw) → Result ApiError (List Response)
  read_envelope (err e) = err (bad_json e)
  read_envelope (ok rs) = read_tuples rs

  read_answer : Bytes → Result Bytes (ℕ × Bytes) → Result ApiError (List Response)
  unfolding read_envelope
  read_answer url (err e) = err (failed e)
  read_answer url (ok (status, body)) =
      if ltb status 200 || leb 300 status
      then err (bad_status url status (truncate_bytes body 1024))
      else read_envelope (l.decode_envelope body)

  -- invokeJMAP
  unfoldable pub invoke_jmap : JmapRuntime → World → Call → World × Result ApiError (List Response)
  unfolding read_answer
  invoke_jmap rt w call =
      let (w', answer) = l.post w rt.api_url rt.bearer call in (w', read_answer rt.api_url answer)

  read_args : {A : Type 0} → Result Bytes A → Result ApiError A
  read_args (err e) = err (bad_args e)
  read_args (ok a) = ok a

  read_named : {A : Type 0} → (Raw → Result Bytes A) → Raw → Result Bytes Bytes → Result ApiError A
  unfolding read_args
  read_named decode args (err e) = err (failed e)
  read_named decode args (ok name) =
      if str_eq name (codes "error")
      then err (method_error (l.raw_text args))
      else read_args (decode args)

  -- The part that the parsers of the four answers share
  unfoldable pub parse_response :
      {A : Type 0} → (Raw → Result Bytes A) → Response → Result ApiError A
  unfolding read_named
  parse_response decode r = read_named decode r.args (l.decode_string r.name)

  unfoldable pub parse_mailbox_query_response : Response → Result ApiError (List Bytes)
  parse_mailbox_query_response r = parse_response l.decode_ids r

  -- The total, which is only logged, is left out.
  unfoldable pub parse_email_query_response : Response → Result ApiError (List Bytes)
  parse_email_query_response r = parse_response l.decode_query r

  first_parsed : List Bytes → Bytes → ℤ
  first_parsed [] s = pos 0
  first_parsed (layout ∷ layouts) s = parsed_or (l.parse_time layout s) (first_parsed layouts s)
    where
      parsed_or : Option ℤ → ℤ → ℤ
      parsed_or none rest = rest
      parsed_or (some t) rest = t

  unfoldable pub parse_utc_date_string : Bytes → ℤ
  unfolding first_parsed
  parse_utc_date_string s =
      let t = trim_space s in
      if is_nil t
      then pos 0
      else first_parsed
          (codes "2006-01-02T15:04:05.999999999Z07:00"
            ∷ codes "2006-01-02T15:04:05Z07:00"
            ∷ codes "2006-01-02T15:04:05"
            ∷ [])
          t

  text_or_empty : Option Bytes → Bytes
  text_or_empty none = []
  text_or_empty (some s) = s

  date_or_zero : Option Bytes → ℤ
  date_or_zero none = pos 0
  date_or_zero (some s) = parse_utc_date_string s

  unfoldable pub parsed_email : Row → ParsedEmail
  unfolding text_or_empty date_or_zero
  parsed_email row = record {
    thread_id = text_or_empty row.thread_id;
    subject = text_or_empty row.subject;
    preview = text_or_empty row.preview;
    received_unix_ms = date_or_zero row.received_at;
  }

  unfoldable pub parse_email_get_list : Response → Result ApiError (List ParsedEmail)
  parse_email_get_list r = parse_response l.decode_emails r >>= λ rows. ok (map parsed_email rows)

  -- An id of a thread as it is compared
  unfoldable pub normal_id : Bytes → Bytes
  normal_id s = l.nfc (trim_space s)

  unfoldable pub count_messages : Dict ℕ → List (Bytes × List Bytes) → Dict ℕ
  count_messages counts [] = counts
  count_messages counts ((s, email_ids) ∷ rows) =
      let id = normal_id s in
      count_messages (if is_nil id then counts else insert id (length email_ids) counts) rows

  unfoldable pub parse_thread_get_counts : Response → Result ApiError (Dict ℕ)
  parse_thread_get_counts r =
      parse_response l.decode_threads r >>= λ rows. ok (count_messages [] rows)

  first_id : List Bytes → Result ApiError Bytes
  first_id [] = err no_inbox
  first_id (s ∷ ids) = if is_nil (trim_space s) then err no_inbox else ok (normal_id s)

  first_inbox : List Response → Result ApiError Bytes
  unfolding first_id
  first_inbox [] = err empty_responses
  first_inbox (r ∷ rs) = parse_mailbox_query_response r >>= first_id

  -- resolveInboxMailboxID
  unfoldable pub resolve_inbox_mailbox_id : JmapRuntime → World → World × Result ApiError Bytes
  unfolding first_inbox
  resolve_inbox_mailbox_id rt w =
      let (w', responses) = invoke_jmap rt w (mailbox_query rt.account_id) in
      (w', responses >>= first_inbox)
