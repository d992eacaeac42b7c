-- ===== src/Error/Redact.antt =====
-- `redact_values` and `sanitize_untrusted` of crates/tinybus/src/error.rs.
use tinybus.Prelude.{
  ℕ, ◌≡◌, ◌≢◌, refl, Bool, true, false, ◌&&◌, ◌||◌, Option, none, some, [], ◌∷◌, ◌++◌, arith,
  nat_eq, ◌==◌, if◌then◌else◌, take, filter, All,
}
use tinybus.Text.{Str, txt, is_ascii_alphanumeric}
use tinybus.Name.Types.{MemberName}
use tinybus.Error.{Error}

abbrev pub backtick : ℕ
backtick = 0x60

abbrev pub quote : ℕ
quote = 0x22

abbrev pub backslash : ℕ
backslash = 0x5c

abbrev pub ellipsis : ℕ
ellipsis = 0x2026

abbrev pub is_delimiter : ℕ → Bool
is_delimiter c = c == backtick || c == quote

-- The loop of `redact_values`: the open delimiter and the escape flag are its state.
redact_from : Option ℕ → Bool → Str → Str
redact_from open_quote escaped [] = []
redact_from (some delimiter) escaped (c ∷ s) =
    let cleared = redact_from (some delimiter) false s in
    let armed = redact_from (some delimiter) true s in
    let closed = redact_from none escaped s in
    let hidden = redact_from (some delimiter) escaped s in
    if delimiter == quote && escaped
    then cleared
    else if delimiter == quote && c == backslash
    then armed
    else if c == delimiter
    then delimiter ∷ closed
    else hidden
redact_from none escaped (c ∷ s) =
    let opened = redact_from (some c) escaped s in
    let copied = redact_from none escaped s in
    if is_delimiter c then c ∷ ellipsis ∷ opened else c ∷ copied

pub redact_values : Str → Str
unfolding redact_from
redact_values message = redact_from none false message

-- `Error::bad_arguments`, over the text of the failure.
unfoldable pub bad_arguments : MemberName → Str → Error
bad_arguments member reason = Error.bad_arguments member (redact_values reason)

pub sanitize_untrusted : Str → Str
sanitize_untrusted value = take 32 (
    filter (λ c. is_ascii_alphanumeric c || (c == b'.' || c == b'_' || c == b'+' || c == b'-'))
      value)

-- `v` stands inside quotes closed by `d`: no `d` in it, but behind a backslash where `d` is `"`.
pub data IsHidden (d : ℕ) : Str → Type 0 where
  done : IsHidden d []
  escape : {c : ℕ} {s : Str} → d ≡ quote → IsHidden d s → IsHidden d (backslash ∷ c ∷ s)
  plain :
      {c : ℕ} {s : Str} → c ≢ d → (d ≡ quote → c ≢ backslash) → IsHidden d s → IsHidden d (c ∷ s)

redact_from_hidden :
    (d : ℕ) (post : Str) {v : Str}
    → IsHidden d v
    → redact_from (some d) false (v ++ d ∷ post) ≡ d ∷ redact_from none false post
unfolding redact_from
redact_from_hidden d post done = ground arith
redact_from_hidden d post (escape e h) = ground (arith, redact_from_hidden d post h)
redact_from_hidden d post (plain ne nb h) = ground (arith, redact_from_hidden d post h, nb)

redact_from_plain :
    (pre rest : Str)
    → All (λ c. is_delimiter c ≡ false) pre
    → redact_from none false (pre ++ rest) ≡ pre ++ redact_from none false rest
unfolding redact_from
redact_from_plain [] rest h = refl
redact_from_plain (c ∷ pre) rest (hc, h) = ground (arith, redact_from_plain pre rest h)

-- A value in quotes or backticks that does not hold the closing delimiter, other than behind a
-- backslash in quotes, is replaced by an ellipsis: what stands before it, without a delimiter,
-- stays, nothing of the value is left, and what follows the closing delimiter is redacted from a
-- fresh start.
pub redact_values-IsHidden :
    (pre v post : Str) (d : ℕ)
    → All (λ c. is_delimiter c ≡ false) pre
    → is_delimiter d ≡ true
    → IsHidden d v
    → redact_values (pre ++ d ∷ (v ++ d ∷ post)) ≡ pre ++ d ∷ ellipsis ∷ d ∷ redact_values post
unfolding redact_values
redact_values-IsHidden pre v post d hp hd hv =
    ground (arith, redact_from_plain pre (d ∷ (v ++ d ∷ post)) hp, redact_from_hidden d post hv)

-- What is in quotes stays hidden when the redacted text is redacted again.
record IsStable (s : Str) : Type 0 where
  copied : redact_from none false (redact_from none false s) ≡ redact_from none false s
  hidden :
      (d : ℕ) (escaped : Bool)
      → is_delimiter d ≡ true
      → (escaped ≡ true → d ≡ quote)
      → redact_from (some d) false (redact_from (some d) escaped s) ≡ redact_from (some d) escaped s

stable : (s : Str) → IsStable s
unfolding redact_from
stable [] = record { copied = refl; hidden = λ d escaped h k. refl }
stable (c ∷ s) = record {
  copied = ground (arith, (stable s).copied, (stable s).hidden c false);
  hidden = λ d escaped h k.
      ground (arith, (stable s).copied, (stable s).hidden d false h, (stable s).hidden d true h, k);
}

-- Redacting a second time changes nothing.
pub redact_values_idem : (m : Str) → redact_values (redact_values m) ≡ redact_values m
unfolding redact_values
redact_values_idem m = (stable m).copied

sample :
    redact_values (txt "invalid type: string \"a\\\"b\", expected `c`")
    ≡ txt "invalid type: string \"…\", expected `…`"
unfolding redact_values txt
sample = refl

-- A value in backticks that holds a backtick: its rest is copied.
leaked : redact_values (txt "`a`secret`") ≡ txt "`…`secret`…"
unfolding redact_values txt
leaked = refl
