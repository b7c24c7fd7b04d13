-- ===== src/ConnMgr.antt =====
-- src/networking/conn_mgr: a pool of TCP connections. Queue is conn_mgr_queue.c, Errors is
-- conn_mgr_errors.h and conn_mgr_core.c, Conn is conn_mgr_conn.c, and Pool is conn_mgr_pool.c, which uses
-- the queue and the connections.
pub mod Queue
pub mod Errors
pub mod Conn
pub mod Pool
