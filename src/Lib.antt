-- ===== src/Lib.antt =====
-- jarl is a small language with a parser, a syntax checker, a code generator and a virtual machine
-- in C++ (libjarl/). This library models its front end, the generator, the machine with the values
-- that it works on, and data structures that they keep, and states what makes them correct.
--
-- `jarl::execute` of libjarl/api.cpp runs the stages one after another: the lexer hands a list of
-- lexemes to the parser, the parser a tree to the syntax checker, and the checker the same tree,
-- with its flags written, to the code generator. A list of errors goes along with them. The
-- machine runs the code that the generator makes, on values and on partial applications of
-- functions, and asks a function's list of positions for a line when it reports an error.
--
-- Parts and files:
--   Common      tests, lists, integers over the native numbers, and outcomes of a run.
--   Lexeme      libjarl/lexeme.h, lexeme.cpp: LexemeType with its numbers, Lexeme, isStopLexeme.
--               Lexeme/Tokens says what the lexer hands over.
--   Ast         libjarl/ast.h, ast.cpp: ASTNodeType, ASTNode, its constructors and
--               ExprListIterator. Ast/Shape says when the type of a node agrees with its union.
--   Errors      the messages of the parser, the checker and the generator, each with its line.
--   Parser      libjarl/parser.cpp. State: next_, checkNext_, bindp_, D_reportError, in a state
--               monad. Nud: nud_. Led: led_. Climb: expression_ and parse. Grammar is a reference
--               grammar of expressions with a printer, independent of the parser. Post,
--               Prefix, Joins and Total have the proofs on any input; Climbing, Operands, RoundTrip
--               and Minus have those on printed terms.
--   SyntaxChecker  libjarl/syntax_checker.cpp. Check and Expect: the tests and the errors.
--               Validate: validateSyntax. Rules: what it is to demand, described without it.
--               Steps, Parts, Shapes and Sound have the proofs.
--   Api         libjarl/api.cpp: execute, up to the code generator.
--   OpCodes     libjarl/op_codes.h: the operations of the machine and the bits of a word.
--   CodeGenerator  libjarl/code_generator.cpp, code_generator.h. Names: the keys of a VarAllocMap.
--               Context: ThreadingContext, its words, scopes and constants. Relocate: the loop of
--               generate_ that corrects stack positions. Thread: threadAST on leaves, on nodes with
--               one child and on lists. Branch: threadAST on nodes with two children, with jumps
--               and loops. Generate: function literals, threadRexpr, threadInsRexpr, generate_ and
--               generate, tied together in one recursion on the tree, `thread`, in which the code
--               that a node asks of a child is a `Part` of it. RelocateLaws has proofs.
--   Vm          libjarl/vm.cpp, vm.h. State: the stack, the frames, and what a turn ends in.
--               Operations: doArithOp_, doCmpOp_, jumps, variables and assertions. Calls:
--               pushFunction_ in its three forms, popFunction_, and Call, Apply, CreateClosure,
--               Recurse and Return. Step: the loop of execute and its switch. CallLaws and
--               CallFaults have proofs.
--   Correct     the generator and the machine together. Expr: expressions, their meaning, and the
--               code that stands for one. Outputs, Constants, Threads, Moves, Nodes, Jumps, Choice
--               and Generates say that the generator makes that code, Emitted how long it is; Leads,
--               Within, Turns, Run and Frames that the machine runs it, in how many turns and on how
--               high a stack. Body joins the two; Program, Ends and Call draw the conclusions for a
--               program and for a call.
--   Value       libjarl/value.h, value.cpp, string.cpp. Word: Int. Data: TypedValue. Arith: add,
--               sub, mul, div, mod, neg. Compare: cmp in its two forms and String::cmp. Convert:
--               toBool, boolNot, toInt, toFloat, isHashable. Utf8: the glyphs of a string, and its
--               index.
--   Function    libjarl/function.h, function.cpp, code_generator.cpp. Code: Function. Lines:
--               putInstruction and getLine. Apply: PartiallyApplied.
--   Containers  libjarl/vector_set.h, vector_map.h, delegate_map.h, delegate_vector_set.h.
--   Tests       runs on small inputs.
--
-- State is passed on: an operation of a component is a function from its state to its state, with
-- `Outcome` around it where it can fail. A failed assertion, a read past the end of a vector and a
-- read of a union's other member are `fault`; `errorJmp` with its code is `error_jmp`; an overflow
-- of a signed operation is `undefined`. In the parser `lcurrent_` is the list of the lexemes that
-- are left and the one before it. A turn of the machine has a `Fate` of its own, which tells the
-- errors of the machine from those of a value's operation.
--
-- Addresses: a string is interned in the source, and equal strings have equal addresses, so a key of
-- a VarAllocMap is the bytes of its name. The address of a function is its place in the list of the
-- functions made so far, and that of a partial application its place in the list of the machine. An
-- index of the stack counts from its bottom; a borrowed value is such an index.
--
-- Bounds and fuel: Int has 64 bits, and its overflow is written out. A word of code has 16 bits,
-- and what is stored in one is cut off. What is proved of generated code is proved of less than
-- 8192 words and values in a frame, because from 0x2000 on an operand is taken for another kind of
-- place. `expression` and the loop in it take fuel, since `led_` calls it on the state that the
-- loop has reached; `parse` gives as much fuel as there are lexemes, which is enough because each
-- round reads one (Parser.Total.parse-Parsed in the list below). The loop of the machine need not
-- end: `step` is one turn of it, `Leads` a finite number of turns, `Within` at most so many, and
-- `run` takes the number, for which Correct.Ends.generate-run in the list below has a bound.
-- Everything else recurs on a tree or a list.
--
-- Parameters: the operations on floating-point numbers, and what sscanf reads from a string, are
-- records without laws (a theorem that needs one has it as a hypothesis); the equality of floats in
-- a list of constants is a function without a law;
-- the comparison of the containers' keys is a function, in a record with the law that it is their
-- equality where a container or a theorem relies on it.
--
-- Not modelled: the lexer (generated by re2c), arrays, tables and iterators, slices, views and the
-- interning of strings, memory management, printing, debug printing and the command line. The
-- operations of the machine on arrays, tables and iterators, and Print, end a turn in `other`. The
-- stack has room for every value, where the source's FixedVector has room for 1024 and is not
-- checked; Correct.Ends.generate-run bounds how many values the program of an expression needs.
-- The last value that execute takes off the stack is left there. What is proved of the generator
-- and the machine together covers expressions without calls, assignments and loops. Strings are
-- their bytes, and functions, arrays, tables and iterators are addresses. A node's flags are
-- `unset` until the checker writes them, because the constructors of ASTNode do not.
pub mod Common
pub mod Lexeme
pub mod Ast
pub mod Errors
pub mod Parser
pub mod SyntaxChecker
pub mod Api
pub mod Value
pub mod Function
pub mod Containers
pub mod OpCodes
pub mod CodeGenerator
pub mod Vm
pub mod Correct
pub mod Tests
