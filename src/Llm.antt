-- ===== src/Llm.antt =====
-- Conversations and tool schemas: src/llm/mod.rs. A `serde_json::Value` is of a type of its own,
-- a parameter of the model.
pub mod Ollama
use pgmoneta_mcp.Prelude.{List, [], map, Option, none, some}
use pgmoneta_mcp.Bytes.{Bytes, codes}

-- `ToolCall` with its `ToolCallFunction`: the arguments are a map from names to values.
pub record ToolCall (Value : Type 0) : Type 0 where
  pub name : Bytes
  pub arguments : List (Bytes × Value)

pub record ChatMessage (Value : Type 0) : Type 0 where
  pub role : Bytes
  pub content : Bytes
  pub tool_calls : Option (List (ToolCall Value))
  pub tool_name : Option Bytes

-- The schema of a function.
pub record FunctionDefinition (Value : Type 0) : Type 0 where
  pub name : Bytes
  pub description : Bytes
  pub parameters : Value

pub record ToolDefinition (Value : Type 0) : Type 0 where
  pub tool_type : Bytes
  pub function : FunctionDefinition Value

pub data LlmResponse (Value : Type 0) : Type 0 where
  text : Bytes → LlmResponse Value
  tool_calls : List (ToolCall Value) → LlmResponse Value

-- What rmcp's `Tool` has that the conversion reads.
pub record Tool (Value : Type 0) : Type 0 where
  pub name : Bytes
  pub description : Option Bytes
  pub input_schema : Value

-- `unwrap_or_default`
abbrev description_or_default : Option Bytes → Bytes
description_or_default none = []
description_or_default (some d) = d

module _ {Value : Type 0} where
  abbrev llm_schema : Tool Value → ToolDefinition Value
  llm_schema tool = record {
    tool_type = codes "function";
    function = record {
      name = tool.name;
      description = description_or_default tool.description;
      parameters = tool.input_schema;
    };
  }

  -- A schema is a JSON object already, so that its conversion does not fail.
  unfoldable pub mcp_tools_to_llm_schema : List (Tool Value) → List (ToolDefinition Value)
  mcp_tools_to_llm_schema tools = map llm_schema tools

  abbrev pub system : Bytes → ChatMessage Value
  system content = record {
    role = codes "system";
    content = content;
    tool_calls = none;
    tool_name = none;
  }

  abbrev pub user : Bytes → ChatMessage Value
  user content = record {
    role = codes "user";
    content = content;
    tool_calls = none;
    tool_name = none;
  }

  abbrev pub assistant_tool_calls : List (ToolCall Value) → ChatMessage Value
  assistant_tool_calls calls = record {
    role = codes "assistant";
    content = [];
    tool_calls = some calls;
    tool_name = none;
  }

  abbrev pub assistant : Bytes → ChatMessage Value
  assistant content = record {
    role = codes "assistant";
    content = content;
    tool_calls = none;
    tool_name = none;
  }

  abbrev pub tool_result : Bytes → Bytes → ChatMessage Value
  tool_result name content = record {
    role = codes "tool";
    content = content;
    tool_calls = none;
    tool_name = some name;
  }
