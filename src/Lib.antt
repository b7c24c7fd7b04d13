-- ===== src/Lib.antt =====
-- Verification library of the tpt repository, a collection of C programs on networking, memory and
-- concurrency. Each folder below models one program.
--
-- ConnMgr is src/networking/conn_mgr, a manager of TCP connections. Its parts stand on each other:
-- conn_mgr_pool.c keeps idle connections in the queue of conn_mgr_queue.c and opens new ones with
-- conn_mgr_conn.c, which sets the error codes of conn_mgr_errors.h; conn_mgr_core.c names them.
--   Queue.antt: conn_mgr_queue.c over an explicit heap of items; conn_mgr_queue_<f> is the function <f>.
--   Errors.antt: the codes and conn_mgr_err_msg.
--   Conn.antt: conn_mgr_conn.c with the answers of the system as an argument.
--   Pool.antt: conn_mgr_pool.c over the list that the queue holds, one step for each critical section;
--     Pool/System.antt lets any number of clients take those steps in any order.
-- BsonApi is src/serialization/bson_api, a layer over libbson. libbson is a parameter: Docs.antt states
-- what the code uses of it as the record Libbson, with the laws of its documentation.
--   Errors.antt: bson_errors.h and bson_err_msg.
--   Docs.antt: bson_doc_create, bson_doc_get_elements and bson_doc_copy_by_iter.
--   Read.antt: bson_read_from_buffer and the functions that it calls.
--   Values.antt: bson_write_to_buffer, and the values that hold an array or a document.
--   Scalars.antt: the setters of numbers and strings, and bson_to_json.
-- HimProxy is src/networking/himproxy, a transparent proxy.
--   Children.antt: the parent that starts, restarts and signals its children: create_multiple_child and
--     start_child of core.c, wait_for_child and handle_child_exit of main.c, kill_all_children of signal_handler.c.
--   Receive.antt: recv_client_data of core.c, with its growing buffer.
--   Events.antt: handle_epoll_events of core.c and its handlers.
--   Network.antt: the socket wrappers of network.c.
--   Poller.antt: poller.c, and get_orig_dest_addr of network.c.
--   Main.antt: main and parse_command_line of main.c, over the other parts.
--   Start.antt: the event loop of a child in core.c. Signals.antt: signal_handler.c, with the cleanup functions of core.c.
-- EventServer is src/networking/server/server.c, a server over libevent: the life of one of its connections.
-- EpollEcho is src/system/poller/epoll.c, a server that writes what it gets: its address and its events;
--   Main.antt is its main, over both.
-- WaitForChild is src/system/waitForChild/waitforchild.c: the parent that waits for its children.
-- MemPool is src/system/mem_pool/argo_mem_pool.c, a pool of fixed-size objects. A pointer is a slab's index
-- with an offset, and the memory of the slabs is their metadata words. argo_mem_pool_create, _expand, _get,
-- _put and _destroy are the functions of those names. Program.antt is its test program, argo_test_mem_pool.c.
-- MongoApi is src/mongo_api, a layer over the MongoDB driver, whose answers are arguments: MongoApi.antt has the
-- operations on documents, Pool.antt the pool of clients, Errors.antt the codes.
-- Philosophers is src/system/diningphilo/dinphilo.c: its threads as a step relation over the semaphores.
-- ProxyOld is src/networking/himproxy/proxy_old, the proxy as it was before: the threads of a child process share
-- the connections that it accepts.
--   Buffer.antt, Requests.antt: proxy_request_handler.c, the job that reads a client's bytes and lists the
--     requests among them; http_parse_request is a parameter.
--   Poller.antt: proxy_poller.c, which queues the jobs. Core.antt: proxy_core.c, which accepts the clients.
--   Config.antt: proxy_config.c. Release.antt: what frees a client's struct, over an explicit heap of its requests.
--   Cleanup.antt: the cleanup functions of proxy_core.c, which the signal handlers call.
--   Net.antt: proxy_net.c. Forward.antt: proxy_request_forwarder.c and proxy_dns_lookup.c. Main.antt: proxy_main.c;
--     it starts its children by the functions of HimProxy/Children.antt, which have the same text here.
-- SpliceProxy is src/networking/splice/sp_exp, a proxy that relays between a client and a server.
-- SpliceProxy.antt is proxy_recv_and_send of sproxy_core.c with tcp_send_data_with_poll of sproxy_net.c,
-- the way of the client's data to the server.
--   Received.antt: what that way has read and not sent.
--   Splice.antt: make_splice and splice_with_poll of sproxy_splice.c, the way back through a pipe.
--   Tunnel.antt: proxy_poll_and_tunnel and tunnel_the_request of sproxy_core.c, over both ways.
--   Net.antt: the other wrappers of sproxy_net.c.
--   Main.antt: main of sproxy_main.c, which accepts the clients and queues them.
--   Transparent.antt: what src/networking/splice/sp_trans_proxy has of its own, the connection from the client's address.
-- AsyncCopy is src/system/aio/async_read_write.c: a file that is read by asynchronous requests and copied.
-- EchoServer is src/networking/socket/tcp/echoserver/myServer.c: a server that sends back what its clients send.
-- SharedQueue is src/system/ipc/sharedmemory: a producer and a consumer over a ring in shared memory, as a step
-- relation (SharedQueue.antt) over the ring (Ring.antt), which Holds.antt relates to the list of its numbers.
-- ZigZag is src/encoding/zigzag/zigzag.c: the two conversions on bit patterns of 64 bits.
-- Int2Bits is src/other/int2bits.c: the binary digits of a short int.
-- LinkedList is src/other/linkedlist.c: a list over an explicit heap.
-- Common holds what the models share: tests on numbers, lists, C integers and bit operations, families
-- indexed by thread, chains of cells on a heap (Common/Cells.antt), and the switch over error codes.
--
-- Fuel and bounds: the two walks of the queue run on fuel, and a fuel above the length of the queue is
-- enough; conn_mgr_pool_try_pop runs on fuel because its loop may never end, and so do the loop of
-- conn_mgr_pool_destroy, that of parse_request_buffer, and the walks of the linked list and of the list of requests,
-- for which a fuel above the length is enough; queue_print's loop over the shared ring runs on fuel, and
-- four is enough. The other loops are structural, on a count or on the list of the system's answers.
-- Machine integers are written out: `% 2 ^ 32` and `% 2 ^ 64` stand where C wraps, and a signed `int` that
-- would overflow is a fault.
--
-- Not modelled: output and logging, the time that a wait takes, and what the kernel and the C library do
-- inside; their answers are arguments. The programs that only call a library or print are left out.
pub mod AsyncCopy
pub mod BsonApi
pub mod Common
pub mod ConnMgr
pub mod EchoServer
pub mod EpollEcho
pub mod EventServer
pub mod HimProxy
pub mod Int2Bits
pub mod LinkedList
pub mod MemPool
pub mod MongoApi
pub mod Philosophers
pub mod ProxyOld
pub mod SharedQueue
pub mod SpliceProxy
pub mod WaitForChild
pub mod ZigZag
