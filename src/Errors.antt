-- ===== src/Errors.antt =====
-- The messages that the parser, the syntax checker and the code generator collect
-- (dynSprintf("line %d: ...") in libjarl/parser.cpp, syntax_checker.cpp and code_generator.cpp), with the line that each one prints. Three of
-- them print the address of a node in the place of a line: `none`.
use jarl.Common.{ℕ, Option}

pub data Message : Type 0 where
  expected_do expected_l_paren expected_r_paren expected_r_brace expected_r_bracket : Message
  expected_expression unexpected_lexeme : Message
  expected_value expected_l_value expected_identifier expected_key_value_pair : Message
  expected_in expected_assignment expected_expression_list : Message
  undeclared_identifier insertion_to_variable : Message

pub record Error : Type 0 where
  pub line : Option ℕ
  pub message : Message
