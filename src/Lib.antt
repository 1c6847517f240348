-- ===== src/Lib.antt =====
-- Evolution 0.7.8: packets, node files, login queue, parties and chat of an OpenTibia game server.
--
-- The server (source/) talks to game clients in packets (source/networkmessage.cpp), reads maps and
-- item tables and saves objects in a tree format (source/fileloader.cpp), makes clients wait that
-- do not fit under its limit of players (source/waitlist.cpp), and keeps the parties that players
-- form (source/party.cpp), their chat channels (source/chat.cpp) and the containers of their items
-- (source/container.cpp).
--
-- Files and code:
--   Prelude, Prelude/*: names of the libraries, Boolean tests, lists over native numbers, integers.
--   Map/Position: the classes Position and PositionEx of source/position.h, and their order. Map/Tiles:
--     getTile and setTile of source/map.cpp.
--   Net/Memory: the bytes of a buffer as a function from addresses, with 1, 2 and 4 byte accesses in
--     the little-endian order of the machines the server runs on.
--   Net/Xtea: the inner loops of XTEA_encrypt and XTEA_decrypt over one block of two words.
--   Net/Message: class NetworkMessage of source/networkmessage.h: its fields are the record's
--     (m_MsgSize msg_size, m_ReadPos read_pos, m_MsgBuf msg_buf, m_encryptionEnabled
--     encryption_enabled, m_keyset keyset, m_key key, m_RSA rsa), and each Get, Add and set function is
--     a function of the same name in snake case. Bounds, Fields, RoundTrip and Decryption prove
--     what they do.
--   Net/Cipher: XTEA_encrypt and XTEA_decrypt over the whole buffer.
--   Net/Socket: ReadFromSocket and WriteToSocket. A call of recv is a value of Recv, what it gave; send
--     is a function from the number of bytes sent so far and offered to the number it takes.
--   FileLoader: the class FileLoader of source/fileloader.cpp and source/fileloader.h. Writer is
--     openFile for writing, startNode, setProps, endNode and writeData on a disk with some room; Parser
--     is openFile for reading and parseNode; Props is getProps; PropStream holds the classes PropStream
--     and PropWriteStream. A tree of nodes that is to be written is a Forest. Cache is the reading with
--     m_use_cache set (readByte, safeSeek, safeTell, getCacheBlock, loadCacheBlock); the size of a block
--     comes from the size of the file as in openFile, and positions have 64 bits.
--   Login/Waitlist: class Waitlist of source/waitlist.cpp and what it reads of class Status. The list of
--     pointers is a list of entries; the time and the numbers of players are arguments.
--   Party: class Party of source/party.cpp over a World: the parties by their addresses, and the field
--     `party` of every player. Handlers holds the requests of source/protocol79.cpp (0xA3 to 0xA7) and
--     the part of Game::removeCreature (source/game.cpp) that takes a player out of parties. Linked,
--     Handled and Reach follow the pointers, Sound and Consistent the lists of members.
--   Chat: the channels of source/chat.cpp. Chat.antt is ChatChannel and PrivateChatChannel, Channels is
--     class Chat with its maps as tables (Prelude/Table is std::map) and a pointer to a channel as a
--     Ref, Requests the handlers of source/protocol79.cpp. Numbers and Numbering are about the numbers of
--     channels, Leaving and Departure about a player that goes.
--   Container: class Container of source/container.cpp, where it looks into the containers within it.
--     An Item is an address, with its items where it is a container.
--     Slots is its own list: the queries and changes that it has as a Cylinder, over a Store, the table
--     of the containers by their addresses.
--   Item: the type, count and subtype of an item of source/item.cpp. An item is a value with an address;
--     its type is looked up in an ItemTable, for Item::items.
--   Item/Attributes: class ItemAttributes of source/item.cpp. Refinement is about the mask and the list,
--     Meaning about what they answer.
--   Ban: class Ban of source/ban.cpp. Attempts is about failed logins, Lists about the lists of bans.
--   Tile: class Tile of source/tile.cpp: its ground, top items, creatures and other items. A pointer to a
--     thing is its address. Stack and Counting are about the indices of things, Layers and Changes about
--     the order of what lies there, Replacement about __replaceThing, Queries holds what others ask. History
--     is sequences of changes, with the change of an item's type by Game::transformItem.
--   Game: internalAddItem, internalMoveItem and internalRemoveItem of source/game.cpp where the cylinders
--     are containers. Totals, Arrivals, Destinations and Conservation count the items that move, Addition and
--     Removal those that are added and removed, Capacity is about full containers and stacks. The memory of a
--     removed item, and of what lies in a removed container, is freed later, which is not modelled.
--   Condition: the conditions of source/condition.cpp, over the property streams. Fields and Stored are
--     about what comes back of a stored condition; Ticks is how they pass, Dealt the executions of a
--     condition of damage over time by Creature::executeConditions (source/creature.cpp), until it is deleted:
--     Order is the order of the damage, Turns the executions it takes, Whole that all of it is dealt.
--   Outfit: class OutfitList of source/outfit.cpp.
--   Each part has an Examples file, with the theorems at concrete inputs.
--
-- How the parts meet: conditions are stored in the streams of FileLoader/PropStream; a party request
-- names players by ids read from a packet with get_u32; Game composes the queries and changes of
-- Container/Slots; write_to_socket enciphers a NetworkMessage with xtea_encrypt, and read_from_socket
-- deciphers it;
-- the waiting list's message is built with the Add functions; getProps reads the file at the
-- positions that parseNode has put into the nodes.
--
-- Bounds and fuel: integers are natural numbers, with the wrap-around of 8, 16 and 32 bits written
-- out where the code can meet it. parse_node and scan run on the fuel length file + 1, a unit for
-- each call, and each call reads a byte. The loop of the cipher has the number of words as its
-- fuel. The loop of WriteToSocket has the size of the packet as its fuel, since an open socket
-- takes a byte in each turn. The searches of a container run once for it and for each container in
-- it. The loop of createChannel runs over its 9990 numbers.
--
-- A new party is given an address that no party has; the address of a deleted one may be used
-- again.
--
-- The cylinders above a container, and what the topmost answers to __queryAdd for its child, are a Place,
-- an argument of the moves of items. A new item is given a fresh address.
--
-- Not modelled: moves of items from and to tiles and players, the texts, shields and skulls that party operations send, the end of a player
-- object's life, readBytes through the block cache of FileLoader (readByte, safeSeek and safeTell are modelled with it
-- and without), the select() of WriteToSocket, the RSA arithmetic (a parameter of rsa_decrypt), locks, and
-- the parts of the server that the game, its scripts, its storage and its protocol make up.
pub mod Ban
pub mod Chat
pub mod Condition
pub mod Container
pub mod FileLoader
pub mod Game
pub mod Item
pub mod Login
pub mod Map
pub mod Net
pub mod Outfit
pub mod Party
pub mod Prelude
pub mod Tile
