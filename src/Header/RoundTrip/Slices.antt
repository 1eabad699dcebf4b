-- ===== src/Header/RoundTrip/Slices.antt =====
-- Reading a message at fixed positions of its text.
use lora_multihop.Prelude.{ℕ, suc, ◌-◌, Text, [], ◌∷◌, ◌++◌, ◌≡◌, ok, arith, length}
use lora_multihop.Prelude.Bind.{◌>>=◌}
use lora_multihop.Python.Number.{int}
use lora_multihop.Header.{message}
use lora_multihop.Header.Parse.{create_message_header_obj}
use lora_multihop.Header.Sendable.{front}

pub data Four : Text → Type 0 where
  four : (a b c d : ℕ) → Four (a ∷ b ∷ c ∷ d ∷ [])

pub data Six : Text → Type 0 where
  six : (a b c d e f : ℕ) → Six (a ∷ b ∷ c ∷ d ∷ e ∷ f ∷ [])

pub length-Four : (s : Text) → length s ≡ 4 → Four s
length-Four (a ∷ b ∷ c ∷ d ∷ []) h = four a b c d
length-Four [] h = absurd (omega arith)
length-Four (a ∷ []) h = absurd (omega arith)
length-Four (a ∷ b ∷ []) h = absurd (omega arith)
length-Four (a ∷ b ∷ c ∷ []) h = absurd (omega arith)
length-Four (a ∷ b ∷ c ∷ d ∷ e ∷ s) h = absurd (omega arith)

pub length-Six : (s : Text) → length s ≡ 6 → Six s
length-Six (a ∷ b ∷ c ∷ d ∷ e ∷ f ∷ []) h = six a b c d e f
length-Six [] h = absurd (omega arith)
length-Six (a ∷ []) h = absurd (omega arith)
length-Six (a ∷ b ∷ []) h = absurd (omega arith)
length-Six (a ∷ b ∷ c ∷ []) h = absurd (omega arith)
length-Six (a ∷ b ∷ c ∷ d ∷ []) h = absurd (omega arith)
length-Six (a ∷ b ∷ c ∷ d ∷ e ∷ []) h = absurd (omega arith)
length-Six (a ∷ b ∷ c ∷ d ∷ e ∷ f ∷ g ∷ s) h = absurd (omega arith)

suc-sub_one : (n : ℕ) → suc n - 1 ≡ n
suc-sub_one n = omega arith

-- Reading the fixed positions of a message.
pub create_message-slices :
    (rf source destination next_node id : Text) (f t r : ℕ) (rs : Text)
    → Four source
    → Four destination
    → Four next_node
    → Six id
    → create_message_header_obj rf (
        b'|'
        ∷ (source
            ++ b'|'
              ∷ f
              ∷ b'|'
              ∷ t
              ∷ b'|'
              ∷ (destination ++ b'|' ∷ (next_node ++ b'|' ∷ (id ++ b'|' ∷ r ∷ rs)))))
      ≡ (do
        ttl ← int (t ∷ [])
        message_id ← int id
        ok (record {
          received_from = rf;
          packet = record {
            source = source;
            ttl = ttl;
            body = message destination next_node message_id (front (r ∷ rs));
          };
        }))
unfolding create_message_header_obj
create_message-slices rf _ _ _ _ f t r rs (four a b c d) (four e g h i) (four j k l m)
      (six n o p q u v) =
    rw suc-sub_one (ground arith)
