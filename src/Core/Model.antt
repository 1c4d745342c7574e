-- ===== src/Core/Model.antt =====
-- crates/night24-core/src/model.rs. `V` is the type of JSON values. `Uuid::new_v4` and `Utc::now`
-- are arguments, and a time is a number.
use night.Prelude.{ℕ, Bool, List, [], ◌∷◌}
use night.Text.{Text, lit}

pub data Role : Type 0 where
  user assistant system tool : Role

-- `Display for Role`, the match of `summarize` too.
abbrev pub role_name : Role → Text
role_name user = lit "user"
role_name assistant = lit "assistant"
role_name system = lit "system"
role_name tool = lit "tool"

pub data ContentBlock (V : Type 0) : Type 0 where
  text : Text → ContentBlock V
  tool_request : Text → Text → V → ContentBlock V
  tool_response : Text → Text → Bool → ContentBlock V
  thinking : Text → ContentBlock V

pub record Message (V : Type 0) : Type 0 where
  pub id : Text
  pub role : Role
  pub content : List (ContentBlock V)
  pub created_at : ℕ

module _ {V : Type 0} where
  -- `Message::user`, with the fresh id and the clock.
  abbrev pub user_message : Text → ℕ → Text → Message V
  user_message uuid now body = record {
    id = uuid;
    role = user;
    content = text body ∷ [];
    created_at = now;
  }

  -- `Message::tool_response`.
  abbrev pub tool_response_message : Text → ℕ → Text → Text → Bool → Message V
  tool_response_message uuid now id body is_error = record {
    id = uuid;
    role = tool;
    content = tool_response id body is_error ∷ [];
    created_at = now;
  }
