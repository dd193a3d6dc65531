-- ===== src/Lib.antt =====
-- Network protocol tools in C: file transfer over TCP (ftp/) and over UDP (tftp/), a chat server
-- (irc/), a web client (https/), and in archive/ earlier forms of these: a chat, downloaders of web pages,
-- a transfer of files over TCP and a remote shell. A client of ftp/ or tftp/ asks a
-- server with CHECK for the size of a file, splits the file into one chunk for each connection, fetches
-- each chunk by a GET in a thread of its own into a shared buffer, and writes the buffer to output.dat.
-- Over UDP each packet carries its number and waits for an ACK.
--
-- The operating system answers by arguments: what a recv, a write or a sendto returns, which files there
-- are, in which order threads run. A text is a list of bytes, a pointer into a buffer is an index.
-- Numbers are natural numbers, with the wrap of size_t written out, and int is Common.Int's ℤ. What ends
-- the process or is undefined in C is a value of a result type of its own.
--
-- - Common: tests on numbers, lists, integers and their conversions, blocks of memory, results.
-- - CString: C strings, %zu, %d, %ns, atoi, strtok and strstr, from the documented behaviour of the C library.
-- - Transfer.Protocol: the texts that ftp/client.c, ftp/server.c, tftp/client.c and tftp/server.c print
--   and scan. Transfer.Plan: the servers' file and the split into chunks, which main of tftp/client.c and
--   of ftp/client.c do alike (read_servers, chunk_size_of, make_tasks, plan). Transfer.Output: the end of
--   both, from pthread_join on; the bytes of a pointer, what pthread_detach of a joined
--   thread does, and what comes of output.dat are arguments.
-- - Tftp.Packet, Tftp.AckQueue, Tftp.Server: tftp/server.c. route is one round of the loop of main,
--   take_ack the search in the queue of ACKs, handle_request the thread of a request.
--   Tftp.Server.Main is main with its loop, Tftp.Server.Shared the queue as main and all waiting threads
--   use it in turn.
-- - Tftp.Client, Tftp.Main: tftp/client.c. round is one round of the loop of download_chunk, run the
--   threads under a schedule, prepare and download are main. Tftp.Main.Served is a client and a server
--   together: the request, the packets, and the ACKs on their way back to the server's threads.
-- - Ftp.Server: handle_client of ftp/server.c. Ftp.Server.Main: its main. Ftp.Client, Ftp.Main: download_chunk and main of
--   ftp/client.c.
-- - Irc.Server: client_handler of irc/server.c, a message at a time (register, round, command), over the
--   arrays of Irc.Server.Rows.
--   Irc.Server.Members: who is registered, as a quotient that forgets the order of the rows.
-- - Irc.Client: irc/client.c, an event at a time: interrupt is handle_sigint, from_peer a round of
--   receive_peer_messages, accepted wait_for_connection, from_server a round of
--   receive_server_messages, typed a round of the loop of main. Irc.Meeting: two clients and the server.
-- - Chat.ClientList: archive/chat/src/clientlist.c. Chat.Server: serverThread of
--   archive/chat/src/myserver.c over this list. Chat.Client: archive/chat/src/myclient.c.
-- - Https.Client: parse_url, the request, the loop over the response and fetch_via_http of
--   https/client.c. Https.Client.Fetch: validate_certificate, fetch_via_https and main, with the list of
--   the calls of OpenSSL that they make.
-- - Web.Response, Web.Secure: archive/web-downloader/secure-web-downloader/src/myweb.c. Web.Simple:
--   archive/web-downloader/simple-web-downloader/src/client.c, whose loops are the same.
-- - Tcp.Server, Tcp.Client: archive/file-transfer/tcp-file-transfer/src/myserver.c and myclient.c.
-- - Shell.Server, Shell.Client: archive/shell/src/myserver.c, the child for one connection, and
--   archive/shell/src/myclient.c; what a command prints is a parameter.
-- - Tests: the theorems at concrete inputs.
--
-- Loops that the environment drives run over the list of its answers: the rounds of a sending loop, the
-- results of write, the datagrams of a thread. The theorems that a loop comes to its end say how long the
-- list must be: a round for each 1016 bytes, a write or recv for each byte, six rounds for each byte that
-- a thread of tftp/client.c waits for. The other loops run over a
-- list or a count of the program and need no bound.
--
-- A function of C that ends without return, and a variable that is read before it is set, give a value
-- that is an argument. The messages of the chat programs are taken to arrive as they are sent, one recv for
-- one send.
--
-- Not modelled: the set-up of sockets in the main functions of irc/ and archive/; what OpenSSL does,
-- which is an argument; archive/file-transfer/udp-file-transfer/, which only echoes datagrams; what is
-- only printed for the user. The threads of ftp/client.c run one after the other in Ftp.Main, and in any
-- order of their recv calls in Ftp.Main.Interleaved; those of tftp/client.c run round by round.
pub mod Common
pub mod CString
pub mod Transfer
pub mod Tftp
pub mod Ftp
pub mod Irc
pub mod Chat
pub mod Https
pub mod Web
pub mod Tcp
pub mod Shell
pub mod Tests
