-- ===== src/Lib.antt =====
-- Verification library for randserver, a game server in C that is scripted in Lua.
--
-- The server's core is a set of data structures under engine/tool and engine/net, used by the
-- network layer (engine/net) and, through bindings (engine/lualib), by the game scripts. Timers are
-- kept in the heap, ranking lists in the size balanced tree, messages are laid out by the packer,
-- sessions are named by ids from the id pool, their buffers come from the buffer pool, and the
-- serializer turns Lua values into the bytes of messages. This library models these structures one
-- by one.
--
-- Base holds what the models share: tests on native numbers, words cut to their width, lists as
--   arrays with checked reads and writes (Base.Lists), signed integers (Base.Int), byte blocks
--   (Base.Bytes), and where a list stands in a longer one (Base.Parts).
-- Sbtree models engine/tool/sbtree.c. Every node is reached by one pointer, so a subtree is a value
--   and a function that writes through `struct sbtree_node**` returns the new subtree. The
--   definitions carry the C names without the prefix `sb_tree_` (`find`, `find_cnt`, `index`,
--   `insert`, `delete`, `clean`, `main_tain`; `lt_cnt` for `sb_tree_lt`, `tree_size` for
--   `sb_tree_size`). Shape states what is kept of a tree, Rotate and Maintain treat the rotations
--   and `sb_tree_main_tain`, Order, Insert, Delete, Undo, Query and Clean the operations, always
--   against the list of the entries in order (`inorder`); `clean` sees the addresses and links of
--   the nodes.
-- Heap models engine/tool/heap.c: `heap_init`, `heap_push`, `heap_pop`, `heap_get` and `check_gc`,
--   with the block as a list. `realloc` is a parameter; a theorem that needs memory has its
--   documented behaviour (`IsRealloc`) as a hypothesis. Up and Down treat the two loops, Gc, Push,
--   Pop and Get the functions.
-- Cpack models engine/tool/cpack.c: `pack_struct`, `unpack_struct`, the ten pairs of functions for
--   single values, and the pair for strings.
-- Ffid models engine/tool/ffid.c: the slots as an array of ids through which the free ids are
--   linked; `has_id` gives with its answer what it writes through `index`. Links treats that list,
--   State says what is kept and treats `ffid_index` (`index_of`) and `ffid_id` (`id_at`), Take
--   `ffid_new_id`, Free `ffid_del_id`, Create `ffid_create`, Life a new id that is given back.
-- BitArray models engine/tool/bit.c, four bits in a word; Bits treats reading after a write.
-- Tdriver models engine/tool/tdriver.c, with the readings of the clock as arguments; Elapsed counts
--   the time over the updates.
-- BuffPool models engine/net/buff_pool.c: the stock of free buffers as an array of addresses, against
--   a stack (Stock). The lock makes each call one step; `malloc` and `realloc` are parameters.
-- Ring models what the three structures of engine/net/buff.c share: the positions of reader and
--   writer, the blocks, `buff_get_space` and `buff_gc_help`, over any type of cells; a buffer of the
--   pool is its address and its cells, and the pool is a record of its two operations (`Pool`).
--   Position treats the arithmetic of positions, Content the cells, Blocks the fetching and the
--   release of blocks, Fifo and Put a ring that holds a queue, Chunks runs over several blocks.
-- MsgBuff models `struct msg_buff`: a cell is a message. Queue treats the operations, Runs sequences
--   of calls against a bounded queue.
-- SendBuff models `struct send_buff`, whose cells are bytes: Header the length in front of a message,
--   Body the copy over the blocks, Stream `send_buff_write`, Drain `send_buff_prepare` and
--   `send_buff_consume`.
-- RecvBuff models `struct recv_buff` in version A: Frame treats `buff_gain_msg_size`, Body
--   and Read `recv_buff_read_vA`, Arrive `recv_buff_consume_vA`.
-- RecvQueue models `struct recv_buff` in version B, a queue of whole messages, where the lengths are
--   kept by their bytes; Safety says where received bytes may go.
-- Serialize models the packing half of engine/lualib/serialize.c and engine/lualib/serialize.h. A Lua
--   value is data (Values): a table has an address, and the heap has the entries of each table in the
--   order of `lua_next`. Buffer treats the growth of the buffer; Graph is a relation of values with
--   their bytes and the entries that unpacking sets, in which the tables are numbered as they are met;
--   Leaves, Pack and All treat packing against it, Unmet counts the tables, Sets, Inside and Rebuilt
--   compare the entries set with the heap.
-- Deserialize models the unpacking half: a new table has its number, and the calls of `lua_rawset` are
--   recorded. Leaves treats single values, Steps and Objects tables, Whole all arguments, Ends any
--   bytes.
--
-- A result `none` is an access through a null pointer or outside a block, or fuel that has run out;
-- a theorem that names the result of an operation shows that neither happens. Unpacking tells the
-- two apart, and from an error that Lua raises and a push that Lua's stack has no room for
-- (`Outcome`). Unsigned arithmetic is cut to the width of the C type wherever a value is stored.
--
-- Fuel: `sb_tree_main_tain` calls itself on the same tree again. `main_tain` takes the depth of the
-- calls as fuel. Every rotation lowers the weight, which is the sum of the sizes of all subtrees, so
-- that fuel above the weight is enough; `maintain` is `main_tain` with that fuel. The loops of the
-- heap run on fuel too, one more than the size, which is enough since the index halves or doubles.
-- `buff_gc_help` runs on twice the number of blocks, as a block number goes round at most once, and
-- `recv_buff_check_new_msg` on the size of the ring, as each message has a byte. `pack_obj` runs on one
-- more than the number of tables, as no table is packed inside itself, and `unpack_obj` and the loops of
-- unpacking on one more than the number of bytes, as each call takes a byte.
--
-- Bounds: fewer than 2 ^ 32 nodes in a tree, fewer than 2 ^ 30 keys in a heap before a push and 2 ^
-- 31 cells in its block, less than 2 ^ 32 bytes in a packer's block, at most 2 ^ 15 blocks of fewer
-- than 2 ^ 16 cells in a ring, fewer than 2 ^ 31 Lua tables, a bound of less than 2 ^ 61 buffers in
-- the pool.
--
-- The host is little-endian with 64-bit `size_t`; floating-point and signed values of the packer are
-- given by their bits.
--
-- Lua is taken to have memory, and the C stack to be deep enough for the nested calls of packing and
-- unpacking; packing has room on Lua's stack, and for unpacking that room is a parameter.
--
-- Not modelled: functions that only free (`heap_release`, `ffid_release`, `release_bit_array`, the
-- release functions of engine/net/buff.c) or print (`sb_tree_print`); `buff_pool_release` frees
-- what `buff_pool_revive` leaves; the local time that tdriver.c stores; in engine/net/buff.c the
-- dispatch by version, and calls of a reader and a writer that interleave; the network service
-- (engine/net/net_service.c, engine/net/epoll_service.c); what Lua makes of the calls of
-- `lua_rawset` but for the error of a nil or NaN key, and the field `error_info` in
-- engine/lualib/serialize.c; the other bindings to Lua in engine/lualib, which are glue; the
-- vendored libraries under thirdlib and the game scripts under luacode.
pub mod Base
pub mod BitArray
pub mod BuffPool
pub mod Cpack
pub mod Deserialize
pub mod Ffid
pub mod Heap
pub mod MsgBuff
pub mod RecvBuff
pub mod RecvQueue
pub mod Ring
pub mod Sbtree
pub mod SendBuff
pub mod Serialize
pub mod Tdriver
