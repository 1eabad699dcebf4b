-- ===== src/Header/Tests.antt =====
-- The inputs of src/tests/test_header.py.
use lora_multihop.Prelude.{
  codes, ◌≡◌, refl, pos, ok, raised, value_error, text_eq, any, eq_ℤ, length,
}
use lora_multihop.Variables.{available_nodes}
use lora_multihop.Python.Split.{split, split_max, partition}
use lora_multihop.Python.Number.{int, signed, strip, is_space, str_ℕ, str_ℤ, format_06d}
use lora_multihop.Header.{route_request, message, create_header_str, get_header_str}
use lora_multihop.Header.Checks.{IsChecked, parse-IsChecked}
use lora_multihop.Header.Parse.{
  create_header_obj_from_raw_message, read_header, message_fields, create_message_header_obj,
  body_fields, route_fields, check_int_field, check_addr_field, is_available,
}

parse_route_request :
    create_header_obj_from_raw_message (codes "LR,0136,10,|0137|3|8|4|0138|")
    ≡ ok (record {
      received_from = codes "0136";
      packet = record {
        source = codes "0137";
        ttl = pos 8;
        body = route_request (pos 4) (codes "0138");
      };
    })
unfolding create_header_obj_from_raw_message read_header body_fields route_fields check_int_field
    check_addr_field int signed strip is_space split split_max partition eq_ℤ
parse_route_request = refl

parse_message_pipe :
    create_header_obj_from_raw_message
      (codes "LR,0136,10,|0135|1|3|0138|0137|000010|hello, good | morning|")
    ≡ ok (record {
      received_from = codes "0136";
      packet = record {
        source = codes "0135";
        ttl = pos 3;
        body = message (codes "0138") (codes "0137") (pos 10) (codes "hello, good | morning");
      };
    })
unfolding create_header_obj_from_raw_message read_header message_fields create_message_header_obj
    is_available check_int_field check_addr_field int signed strip is_space split split_max
    partition eq_ℤ text_eq any available_nodes
parse_message_pipe = refl

reject_short :
    create_header_obj_from_raw_message (codes "LR,0136,10,|0137|3|8|0138|") ≡ raised value_error
unfolding create_header_obj_from_raw_message read_header body_fields route_fields check_int_field
    check_addr_field int signed strip is_space split split_max partition eq_ℤ
reject_short = refl

reject_hello : create_header_obj_from_raw_message (codes "LR,FFFF,0A,hello") ≡ raised value_error
unfolding create_header_obj_from_raw_message read_header check_addr_field split split_max partition
reject_hello = refl

-- An empty payload passes the check for a missing one, which sees the message id.
parse_empty_payload :
    create_header_obj_from_raw_message (codes "LR,0136,10,|0135|1|3|0138|0137|000001||")
    ≡ ok (record {
      received_from = codes "0136";
      packet = record {
        source = codes "0135";
        ttl = pos 3;
        body = message (codes "0138") (codes "0137") (pos 1) (codes "");
      };
    })
unfolding create_header_obj_from_raw_message read_header message_fields create_message_header_obj
    is_available check_int_field check_addr_field int signed strip is_space split split_max
    partition eq_ℤ text_eq any available_nodes
parse_empty_payload = refl

print_message :
    get_header_str (record {
      source = codes "0130";
      ttl = pos 9;
      body = message (codes "0133") (codes "0132") (pos 1) (codes "hello");
    })
    ≡ codes "|0130|1|9|0133|0132|000001|hello|"
unfolding get_header_str create_header_str str_ℕ str_ℤ format_06d
print_message = refl

parse-IsChecked_example :
    (length (codes "0136") ≡ 4) × IsChecked (route_request (pos 4) (codes "0138"))
parse-IsChecked_example =
    parse-IsChecked (codes "LR,0136,10,|0137|3|8|4|0138|")
      (record {
        received_from = codes "0136";
        packet = record {
          source = codes "0137";
          ttl = pos 8;
          body = route_request (pos 4) (codes "0138");
        };
      })
      parse_route_request
