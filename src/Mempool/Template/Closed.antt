-- ===== src/Mempool/Template/Closed.antt =====
-- What `get_block_template` of src/mempool/txmempool.rs answers.
use btck_rust_node.Common.{nat_key}
use btck_rust_node.Mempool.Template.{Template}
