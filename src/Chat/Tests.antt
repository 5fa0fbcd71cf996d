-- ===== src/Chat/Tests.antt =====
-- Runs of the chat handler, and its theorems at concrete requests.
use Prim.Native.Char.{code}
use Prim.Native.String.{[] as no_text, ◌∷◌ as char_cons, ◌++◌ as ◌⊹◌}
use text.Mathlib.TextLemmas.{nil-append, cons-append}
use sentrymesh.Base.{
  List, Bool, true, ◌==◌, ◌||◌, Bool-cases, inl, inr, arith, ◌≤◌, ◌≡◌, ◌≢◌, refl, String, false, [],
  ◌∷◌, All, length, none, some, Result, ok, err, str_eq, if◌then◌else◌, lookup, insert,
}
use sentrymesh.Scanner.{
  Engine, SecretPattern, secret_patterns, email_pattern, scan_secrets, scan_and_redact_pii,
  redact_one,
}
use sentrymesh.Scanner.Injection.{
  homoglyph, fold_runes, normalize_injection_input, match_all, scan_prompt_injection_raw,
  scan_candidates, scan_encoded_injection, is_benign_injection_discussion, scan_prompt_injection,
}
use sentrymesh.Risk.{review, evaluate}
use sentrymesh.Provider.{
  Message, Request, Response, Error, new_default_router, chat, request_failed,
}
use sentrymesh.Chat.{
  ChatRequest, Env, with_default, prompt_text, max_confidence, scan_input, decide, provider_request,
  pipeline, chat_handler,
}
use sentrymesh.Chat.Input.{decision_of, IsCleared, IsRefused, chat_handler-IsCleared}
use sentrymesh.Chat.Output.{reply_to, IsAnswered, chat_handler-IsAnswered}
use sentrymesh.Chat.Secrets.{FindsInside, FindsTrimmed, chat_handler-secret}
use sentrymesh.Chat.Review.{is_recorded, IsPassed, chat_handler-events, chat_handler-review}

-- "AKIA" is a secret, "@" an address, and "pwn" an instruction to take over a role.
abbrev toy : Engine
toy = record {
  matches = λ p s. if str_eq p email_pattern then str_eq s "@" else str_eq s "AKIA\n";
  find = λ p s.
      if str_eq s "pwn\n"
      then (if str_eq p
            "(?i)\\b(you are now|act as|pretend to be)\\b.{0,60}\\b(unrestricted|developer mode|jailbroken|no rules)\\b"
          then "pwn"
          else "")
      else "";
  find_all = λ p s. [];
  replace_all = λ p s r. r;
  decode_base64 = λ s. none;
  to_lower = λ s. s;
  contains = λ s part. false;
  squeeze = λ s. s;
  is_format = λ c. false;
}

abbrev offline : Request → Result Error Response
offline req = err request_failed

abbrev env : Env
env = record {
  engine = toy;
  trim = λ s. s;
  router = new_default_router (λ done. offline);
  called = none;
  returned = none;
}

abbrev says : String → ChatRequest
says s = record {
  model = "m";
  provider = "";
  messages = record { role = "user"; content = s } ∷ [];
}

abbrev leak : ChatRequest
leak = says "AKIA"

leak_status : (chat_handler env (some leak)).status ≡ 403
unfolding chat_handler pipeline evaluate scan_and_redact_pii redact_one scan_secrets
    scan_prompt_injection is_benign_injection_discussion scan_prompt_injection_raw match_all
    normalize_injection_input fold_runes homoglyph scan_encoded_injection scan_candidates
leak_status = refl

chat_handler-IsCleared_example :
    let o = chat_handler env (some (says "@")) in
    All (IsCleared env (with_default (says "@"))) o.calls × (length o.calls ≤ 1)
chat_handler-IsCleared_example = chat_handler-IsCleared env (says "@")

-- An engine that finds a secret wherever a text has the letter K, and trims nothing.
unfoldable has_k : String → Bool
has_k no_text = false
has_k (char_cons c s) = code c == 75 || has_k s

abbrev seeing : Env
seeing = record env { engine = record toy { matches = λ p s. has_k s } }

has_k-append_left : (before text : String) → has_k text ≡ true → has_k (before ⊹ text) ≡ true
unfolding has_k
has_k-append_left no_text text h = rw (nil-append text) h
has_k-append_left (char_cons c before) text h =
    rw (cons-append c before text, has_k-append_left before text h) (ground arith)

has_k-append_right : (text after : String) → has_k text ≡ true → has_k (text ⊹ after) ≡ true
unfolding has_k
has_k-append_right no_text after h = cc
has_k-append_right (char_cons c text) after h = elim (Bool-cases (code c == 75)) [
  | inl k ↦ rw (cons-append c text after, k) refl
  | inr other ↦ rw (cons-append c text after, other) (has_k-append_right text after (rw other at h))
]

sees_inside : (p : SecretPattern) → FindsInside seeing.engine p
sees_inside p before text after h =
    has_k-append_left before (text ⊹ after) (has_k-append_right text after h)

sees_trimmed : (p : SecretPattern) → FindsTrimmed seeing p
sees_trimmed p text h = h

for_each :
    {P : SecretPattern → Type 0}
    → ((p : SecretPattern) → P p)
    → (ps : List SecretPattern) → All P ps
for_each h [] = tt
for_each h (p ∷ ps) = (h p, for_each h ps)

abbrev plain_message : Message
plain_message = record { role = "user"; content = "hi" }

abbrev key_message : Message
key_message = record { role = "user"; content = "AKIA" }

abbrev second_leaks : ChatRequest
second_leaks = record {
  model = "m";
  provider = "";
  messages = plain_message ∷ key_message ∷ plain_message ∷ [];
}

key_found : scan_secrets seeing.engine key_message.content ≢ []
unfolding scan_secrets has_k
key_found h = cc

chat_handler-secret_example :
    IsRefused seeing (with_default second_leaks) (chat_handler seeing (some second_leaks))
chat_handler-secret_example =
    chat_handler-secret seeing second_leaks (plain_message ∷ []) key_message (plain_message ∷ [])
      (for_each sees_inside secret_patterns) (for_each sees_trimmed secret_patterns) refl key_found

chat_handler-IsAnswered_example :
    IsAnswered env (with_default (says "hi")) (chat_handler env (some (says "hi")))
chat_handler-IsAnswered_example = chat_handler-IsAnswered env (says "hi")

chat_handler-events_example :
    let o = chat_handler env (some leak) in length o.events ≡ (if is_recorded env o then 1 else 0)
chat_handler-events_example = chat_handler-events env (some leak)

has_injection : scan_prompt_injection toy (prompt_text (says "pwn").messages) ≢ []
unfolding scan_prompt_injection scan_prompt_injection_raw scan_encoded_injection scan_candidates
    is_benign_injection_discussion normalize_injection_input fold_runes homoglyph match_all
    prompt_text
has_injection h = cc

held : (decision_of env (with_default (says "pwn"))).action ≡ review
unfolding scan_prompt_injection scan_prompt_injection_raw scan_encoded_injection scan_candidates
    is_benign_injection_discussion normalize_injection_input fold_runes homoglyph match_all
    prompt_text scan_input decide scan_secrets scan_and_redact_pii evaluate max_confidence
held = refl

abbrev reply : Response
reply = record { id = "mock_completion"; model = "m"; content = "Mock model response to: pwn" }

replied : reply_to env (with_default (says "pwn")) ≡ ok reply
unfolding chat new_default_router provider_request scan_and_redact_pii lookup insert
replied = refl

harmless : scan_secrets toy reply.content ≡ []
unfolding scan_secrets
harmless = refl

chat_handler-review_example :
    IsPassed env (with_default (says "pwn")) (chat_handler env (some (says "pwn")))
chat_handler-review_example =
    chat_handler-review env (says "pwn") reply (λ h. cc) held replied harmless
