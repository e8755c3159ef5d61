-- ===== src/Lib.antt =====
-- CppTools: a model of the parts of the C++ utility library that carry its logic, with proofs.
--
-- The parts, their sources, and the modules that model them
--
-- Tree: the tree container, cpptools/container/tree.
--   - node.hpp (`node`): Tree/Store.antt is the heap of nodes that the tree and its iterators share, by
--     address; Tree/Node.antt and Tree/Node/Merge.antt (`merge_child`, with the strategies of
--     cpptools/utility/merge_strategy.hpp) have one definition for each member function but
--     `descendant_count`, under its name. Tree/Forest.antt
--     says what nodes stand for, an ordered forest, and Tree/Graft.antt what `insert_child` does to it.
--   - traversal.hpp (`const_dfs_iterator`, `dfs`, `reverse_dfs`): Tree/Traversal.antt has the four functions
--     `dfs_next` and `dfs_previous` for each order (`pre_next`, `post_next`, ...) and the loop over them;
--     Tree/Iterator.antt the iterators, with `operator++`, `operator--` and the loops of the two proxies.
--   - unsafe_tree.hpp (`unsafe_tree`): Tree/Unsafe.antt has the container's fields and `make_node`,
--     `emplace_node`, `clear`, `size` and `empty`; Tree/Unsafe/Model.antt is the invariant that ties the heap,
--     the owned nodes, `_root`, `_leftmost` and `_rightmost` to one forest. Below it, Tree/Unsafe/Equality.antt
--     has `operator==` with the walk `_subtrees_equal`, Tree/Unsafe/Subtree.antt `adopt_subtree`,
--     `chop_subtree`, `erase_subtree` and `move_subtree` with the recursions over the nodes of a subtree,
--     Tree/Unsafe/Merge.antt `merge_with_parent`, Tree/Unsafe/Copy.antt `_copy_assign_contents`, Tree/Unsafe/Initializer.antt the constructor from an
--     initializer, and Tree/Unsafe/MoveAssign.antt `_move_assign_contents`, with the addresses that the allocator returns as a
--     function of the number of the call. Two trees that meet in an operation share the heap.
-- Text: cpptools/utility/string.cpp and string.hpp, on strings as lists of bytes. Text/Pop.antt has `pop_char`,
--   `pop_string`, `pop_cr`, `pop_lf`, `pop_crlf` and `strip_cr`; Text/Trim.antt `is_whitespace` and `trim`;
--   Text/Comments.antt `strip_c_comments`, with `out_of_range` where a place is behind the end;
--   Text/Contains.antt `contains`; Text/Tokens.antt `tokenize`; Text/Numbers.antt `is_integer` and
--   `parse_integer_sequence`; Text/Columns.antt `multiline_concatenate`, which uses the others;
--   Text/Range.antt `parse_int_range` for `long long`, and `from_range`. Text/Decimal.antt has `std::to_string`
--   and `std::stoi` as the command line uses them.
-- Worker: cpptools/thread/worker.cpp. Worker.antt has the state, one step of `_work` for each point at
--   which another thread can see or change something, and `finalize`, `pause` and `run`; Worker/Step.antt
--   the interleavings of the thread with those calls, which wait while `_work` holds `_mutex_execute`. A call
--   of `wait_until_finalized`, `wait_until_paused` or `wait_until_running` waits for a flag of the state.
--   The functions given to a worker are steps that return and touch nothing of its state.
-- Values: Values/Clamped.antt and Values/Wrapping.antt are cpptools/utility/clamped_value.hpp and
--   wrapping_value.hpp for `int` values and operands: `_constrain`, `+=`, `-=` and the reversed `-`.
-- Cli: Cli/Sequence.antt is `command_sequence::run` of cpptools/cli/command_sequence.hpp, for any commands: a
--   command is what it does to the context and the streams, and the code or exception with which it ends.
--   Cli/Arguments.antt and the files below it are cpptools/cli/argument_parsing.hpp for `char`:
--   Arguments/Specs.antt has `validate_arg_specs`, `handle_long_arg`, `handle_short_arg` and `handle_bad_arg`,
--   Arguments/Values.antt the map of values (`insert`, `find_name`, `at`, `has`, `erase`) as the entries of a
--   `std::map` in order, and Arguments/Parse.antt the two functions `parse_arguments`, without and with
--   specifications. They use the specifications' functions and fill the map, and end with a `Run`: a value,
--   an exception, undefined behaviour, or no fuel left. Bytes compare as unsigned numbers.
--   Cli/Input.antt is cpptools/cli/input.hpp: `read_input`, `prompt`, `prompt_min`, `prompt_max` and
--   `prompt_bounded` for `std::string`, `int` and `bool`, on streams that are the lines left to read and the
--   texts written. Cli/Menu.antt is cpptools/cli/menu.hpp and Cli/Shell.antt cpptools/cli/shell.hpp, both on
--   top of the prompts, for any commands; Cli/TextMap.antt is the `std::map` in which the shell keeps its own.
-- Base: what the parts share. A call that may be undefined or run on returns a `Result`: a value, a
--   fault (a null pointer, an index out of range, `back()` of an empty string), or no fuel left.
--
-- Bounds and fuel
--
-- A loop along a branch of a tree (`leftmost_child_or_this`, `has_parent`, the climb of `dfs_next`) takes a
-- round of fuel for each node it visits; the theorems ask for fuel for the depth of the tree, and a loop
-- over a tree for a round for each node. Sibling indices are a `size_t` of 64 bits, whose decrement wraps
-- around. `tokenize` and `strip_c_comments` give their loops a round for each byte and one more, and are proved
-- never to run out. The loops of `parse_arguments` have a round for each argument and one more. The prompts of a
-- menu and of a shell have a round for each line of the input and one more; the loops of the two take a number
-- of rounds, of which one for each line is enough.
-- `std::stoi` is written out for the tokens that reach it: it throws above the range of a 32-bit `int`, and
-- a negative number becomes a `size_t` of 64 bits. <cctype> is that of the "C" locale, on
-- bytes as unsigned numbers.
--
-- Not modelled: the debug assertions, allocators and exceptions of constructors, hashing and the order of
-- `_nodes`; stealing the nodes of a tree
-- (unsafe_tree.hpp), the facade tree.hpp and node_handle.hpp; `from_file`, `narrow` and
-- `widen`; the typed values `value_vec` of parsed arguments; the other values and
-- ranges of cpptools/utility, cpptools/memory, the exceptions, and the sine generator, which computes in
-- floating point. `strip_cr` is read as if erasing a byte kept the iterator of its loop valid.
pub mod Base
pub mod Tree
pub mod Text
pub mod Worker
pub mod Values
pub mod Cli
