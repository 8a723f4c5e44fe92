-- ===== src/Api/Memory.antt =====
-- An encoding of transactions with one message of the registry: each text behind its length.
use poc_cometbft.Prelude.{
  ℕ, Option, none, some, inl, inr, ◌⊎◌, ◌==◌, if◌then◌else◌, arith, zero, suc, ◌≡◌, refl, ap, List,
  [], ◌∷◌, ◌++◌, length, take, drop,
}
use poc_cometbft.Bytes.{Bytes, bytes}
use poc_cometbft.Taskreg.History.{Msg}
use poc_cometbft.Api.ChainClient.{SdkMsg, registry}
use poc_cometbft.Api.RegistryChain.{Refusal, Checks, TxCodec, TxLaws}

take-append : (a b : Bytes) → take (length a) (a ++ b) ≡ a
take-append [] b = refl
take-append (c ∷ a) b = ap (λ r. c ∷ r) (take-append a b)

drop-append : (a b : Bytes) → drop (length a) (a ++ b) ≡ b
drop-append [] b = refl
drop-append (c ∷ a) b = drop-append a b

abbrev pub put_text : Bytes → Bytes → Bytes
put_text s rest = length s ∷ (s ++ rest)

abbrev pub text_of : Bytes → Bytes
text_of [] = []
text_of (n ∷ b) = take n b

abbrev pub rest_of : Bytes → Bytes
rest_of [] = []
rest_of (n ∷ b) = drop n b

abbrev pub put_message : Msg → Bytes
put_message (Msg.create m) = 0 ∷ put_text m.creator (put_text m.title (put_text m.description []))
put_message (Msg.assign m) = 1 ∷ m.task_id ∷ put_text m.creator (put_text m.assignee [])
put_message (Msg.complete m) = 2 ∷ m.task_id ∷ put_text m.assignee []

abbrev pub message_of : Bytes → List Msg
message_of (zero ∷ b) =
    Msg.create (record {
      creator = text_of b;
      title = text_of (rest_of b);
      description = text_of (rest_of (rest_of b));
    })
    ∷ []
message_of (suc zero ∷ id ∷ b) =
    Msg.assign (record { creator = text_of b; task_id = id; assignee = text_of (rest_of b) }) ∷ []
message_of (suc (suc n) ∷ id ∷ b) =
    Msg.complete (record { assignee = text_of b; task_id = id }) ∷ []
message_of _ = []

abbrev pub put_messages : List (SdkMsg (Unit {0})) → Bytes
put_messages (registry msg ∷ msgs) = put_message msg
put_messages _ = []

abbrev pub tail_of : Bytes → Bytes
tail_of [] = []
tail_of (n ∷ b) = b

-- The sequence, then the message.
abbrev pub tx_codec : TxCodec
tx_codec = record {
  encode = λ account messages. account.1 ∷ put_messages messages;
  decode = λ tx. message_of (tail_of tx);
  hash_of = λ tx. tx;
}

pub read_back : (msg : Msg) → message_of (put_message msg) ≡ msg ∷ []
read_back (Msg.create m) = rw (take-append, drop-append, take-append, drop-append, take-append) refl
read_back (Msg.assign m) = rw (take-append, drop-append, take-append) refl
read_back (Msg.complete m) = rw take-append refl

abbrev pub tx_laws : TxLaws tx_codec
tx_laws = record { decode-encode = λ account msg. read_back msg }

abbrev pub unknown_address : Refusal
unknown_address = record {
  code = 7;
  positive = λ e. omega (arith, e);
  log = bytes "empty address string";
}

-- An address is any text but the empty one.
abbrev pub parse_address : Bytes → Option Refusal
parse_address [] = some unknown_address
parse_address (c ∷ text) = none

abbrev pub wrong_sequence : Refusal
wrong_sequence = record {
  code = 32;
  positive = λ e. omega (arith, e);
  log = bytes "account sequence mismatch";
}

abbrev pub take_next : ℕ → Bytes → Refusal ⊎ ℕ
take_next accounts [] = inl wrong_sequence
take_next accounts (sequence ∷ tx) =
    if sequence == accounts then inr (suc accounts) else inl wrong_sequence

-- One account, which is its sequence: an ante handler that takes the transactions with the next one.
abbrev pub checks : Checks
checks = record {
  Accounts = ℕ;
  parse_address = parse_address;
  title_refusal = unknown_address;
  recovered = unknown_address;
  account = λ accounts addr. (0, accounts);
  ante = take_next;
}
